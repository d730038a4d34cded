-- ===== src/Base/Maps.antt =====
-- Go's `map` as an association list with one entry for each key. The order of `range` is not
-- specified by Go, and no definition of this development depends on the order of the entries.
use Prim.Native.Nat.{suc}
use mathlib.Core.Path.{◌≡◌, refl, ap}
use mathlib.Core.Bool.{Bool, true, false, ◌&&◌}
use mathlib.Core.Option.{Option, none, some}
use mathlib.Core.List.{List, [], ◌∷◌}
use native.Mathlib.Omega.{arith}
use serpe.Base.Tests.{Comparable, ◌==◌, ==_iff, if◌then◌else◌, Bool-cases}
use serpe.Base.Lists.{length}
use mathlib.Core.Logic.{inl, inr}

abbrev pub Assoc {ℓ κ} : Type ℓ → Type κ → Type (ℓ ⊔ κ)
Assoc K V = List (K × V)

abbrev pub is_some {ℓ} : {A : Type ℓ} → Option A → Bool
is_some none = false
is_some (some a) = true

module _ {ℓ κ} {K : Type ℓ} {V : Type κ} ⦃e : Comparable K⦄ where
  -- `v, ok := m[k]`
  unfoldable pub lookup : K → Assoc K V → Option V
  lookup k [] = none
  lookup k ((j, v) ∷ m) = if j == k then some v else lookup k m

  -- `_, ok := m[k]`
  abbrev pub has : K → Assoc K V → Bool
  has k m = is_some (lookup k m)

  -- `delete(m, k)`
  unfoldable pub remove : K → Assoc K V → Assoc K V
  remove k [] = []
  remove k ((j, v) ∷ m) = let rest = remove k m in if j == k then rest else (j, v) ∷ rest

  -- `m[k] = v`
  unfoldable pub put : K → V → Assoc K V → Assoc K V
  unfolding remove
  put k v m = (k, v) ∷ remove k m

  -- No key has two entries.
  abbrev pub IsUnique : Assoc K V → Type κ
  IsUnique [] = Unit
  IsUnique ((j, v) ∷ m) = (lookup j m ≡ none) × IsUnique m

  pub lookup-remove :
      (k j : K) (m : Assoc K V) → lookup j (remove k m) ≡ (if k == j then none else lookup j m)
  unfolding lookup remove
  lookup-remove k j [] = ground arith
  lookup-remove k j ((i, v) ∷ m) =
      ground (arith, lookup-remove k j m, ==_iff i k, ==_iff i j, ==_iff k j)

  pub lookup-put :
      (k j : K) (v : V) (m : Assoc K V)
      → lookup j (put k v m) ≡ (if k == j then some v else lookup j m)
  unfolding put lookup
  lookup-put k j v m = ground (arith, lookup-remove k j m)

  pub IsUnique-remove : (k : K) (m : Assoc K V) → IsUnique m → IsUnique (remove k m)
  unfolding remove
  IsUnique-remove k [] u = tt
  IsUnique-remove k ((j, v) ∷ m) u = elim (Bool-cases (j == k)) [
    | inl eq ↦ rw eq (IsUnique-remove k m u.1)
    | inr ne ↦ rw ne (ground (arith, lookup-remove k j m, u.0), IsUnique-remove k m u.1)
  ]

  pub IsUnique-put : (k : K) (v : V) (m : Assoc K V) → IsUnique m → IsUnique (put k v m)
  unfolding put
  IsUnique-put k v m u =
      (ground (arith, lookup-remove k k m, ==_iff k k, (==_iff k k).1 refl), IsUnique-remove k m u)

  pub remove_absent : (k : K) (m : Assoc K V) → lookup k m ≡ none → remove k m ≡ m
  unfolding lookup remove
  remove_absent k [] h = refl
  remove_absent k ((j, v) ∷ m) h = ground (arith, remove_absent k m)

  pub length-remove :
      (k : K) (m : Assoc K V) {v : V}
      → IsUnique m
      → lookup k m ≡ some v
      → suc (length (remove k m)) ≡ length m
  unfolding lookup remove
  length-remove k [] u h = cc
  length-remove k ((j, w) ∷ m) {v} u h = elim (Bool-cases (j == k)) [
    | inl eq ↦
        rw eq
          (ap (λ (l : Assoc K V). suc (length l)) (remove_absent k m (cc (u.0, (==_iff j k).0 eq))))
    | inr ne ↦ rw ne (ap suc (length-remove k m {v = v} u.1 (rw ne at h)))
  ]

  -- A test that a `range` loop makes of every entry.
  unfoldable pub all_entries : (K → V → Bool) → Assoc K V → Bool
  all_entries p [] = true
  all_entries p ((j, v) ∷ m) = p j v && all_entries p m

  pub all_entries-lookup :
      (p : K → V → Bool) (m : Assoc K V) {k : K} {v : V}
      → all_entries p m ≡ true
      → lookup k m ≡ some v
      → p k v ≡ true
  unfolding lookup all_entries
  all_entries-lookup p [] a h = cc
  all_entries-lookup p ((j, w) ∷ m) {k} {v} a h =
      ground (arith, all_entries-lookup p m {k = k} {v = v}, ==_iff j k)

  pub all_entries-intro :
      (p : K → V → Bool) (m : Assoc K V)
      → IsUnique m
      → ((k : K) (v : V) → lookup k m ≡ some v → p k v ≡ true)
      → all_entries p m ≡ true
  unfolding lookup all_entries
  all_entries-intro p [] u a = refl
  all_entries-intro p ((j, w) ∷ m) u a = ground (
    arith,
    a j w,
    (==_iff j j).1 refl,
    all_entries-intro p m u.1 (λ k v h. a k v (ground (arith, ==_iff j k, u.0))),
  )
