-- ===== src/Tools/Claims/Conflict.antt =====
-- `claimsConflict` against its meaning: two calls conflict exactly when they claim one resource and
-- one of the two claims is a write.
use mathlib.Core.Logic.{◌↔◌, inl, inr}
use serpe.Base.{
  ℕ, ◌≡◌, refl, sym, ◌∙◌, Bool, true, false, ◌||◌, Option, none, some, List, [], ◌∷◌, ◌==◌, ==_iff,
  Assoc, lookup, put, lookup-put, Bytes, nat_eq, bytes_eq, arith, Bool-cases, Option-cases,
}
use serpe.Tools.Claims.{
  Claim, access_write, any_conflict, index_claims, claims_conflict, entries, IsDistinct,
}

abbrev pub one_writes : ℕ → ℕ → Bool
one_writes x y = x == access_write || y == access_write

-- Two claim lists share a resource that one of them writes.
abbrev pub Clash : List Claim → List Claim → Type 0
Clash a b =
    (r : Bytes) × (x y : ℕ) × (lookup r (entries a) ≡ some x)
    × (lookup r (entries b) ≡ some y)
    × (one_writes x y ≡ true)

abbrev or_else {ℓ} : {A : Type ℓ} → Option A → Option A → Option A
or_else none o = o
or_else (some a) o = some a

lookup-index_claims :
    (r : Bytes) (b : List Claim) (m : Assoc Bytes ℕ)
    → IsDistinct b
    → lookup r (index_claims b m) ≡ or_else (lookup r (entries b)) (lookup r m)
unfolding index_claims lookup
lookup-index_claims r [] m d = refl
lookup-index_claims r (c ∷ cs) m d = ground (
  arith,
  d.0,
  ==_iff c.resource r,
  lookup-index_claims r cs (put c.resource c.access m) d.1,
  lookup-put c.resource r c.access m,
)

lookup-index :
    (r : Bytes) (b : List Claim)
    → IsDistinct b
    → lookup r (index_claims b []) ≡ lookup r (entries b)
lookup-index r b d = lookup-index_claims r b [] d ∙ none_else (lookup r (entries b))
  where
    none_else : (o : Option ℕ) → or_else o (lookup r []) ≡ o
    none_else none = unfold lookup in refl
    none_else (some x) = refl

any_conflict_sound :
    (a : List Claim) (ib : Assoc Bytes ℕ)
    → IsDistinct a
    → any_conflict a ib ≡ true
    → (r : Bytes) × (x y : ℕ) × (lookup r (entries a) ≡ some x)
      × (lookup r ib ≡ some y)
      × (one_writes x y ≡ true)
unfolding any_conflict lookup
any_conflict_sound [] ib d h = absurd (cc)
any_conflict_sound (c ∷ cs) ib d h = elim (Option-cases (lookup c.resource ib)) [
  | inl absent ↦ later (any_conflict_sound cs ib d.1 (ground arith))
  | inr (other, found) ↦ elim (Bool-cases (one_writes c.access other)) [
    | inl clash ↦
        (c.resource, c.access, other, ground (arith, ==_iff c.resource c.resource), found, clash)
    | inr free ↦ later (any_conflict_sound cs ib d.1 (ground arith))
  ]
]
  where
    later :
        (r : Bytes) × (x y : ℕ) × (lookup r (entries cs) ≡ some x)
          × (lookup r ib ≡ some y)
          × (one_writes x y ≡ true)
        → (r : Bytes) × (x y : ℕ) × (lookup r (entries (c ∷ cs)) ≡ some x)
          × (lookup r ib ≡ some y)
          × (one_writes x y ≡ true)
    later (r, x, y, p, q, w) = (r, x, y, ground (arith, d.0, ==_iff c.resource r), q, w)

any_conflict_complete :
    (a : List Claim) (ib : Assoc Bytes ℕ) (r : Bytes) (x y : ℕ)
    → lookup r (entries a) ≡ some x
    → lookup r ib ≡ some y
    → one_writes x y ≡ true
    → any_conflict a ib ≡ true
unfolding any_conflict lookup
any_conflict_complete [] ib r x y p q w = cc
any_conflict_complete (c ∷ cs) ib r x y p q w =
    ground (arith, ==_iff c.resource r, any_conflict_complete cs ib r x y)

any_conflict-nil : (a : List Claim) → any_conflict a [] ≡ false
unfolding any_conflict lookup
any_conflict-nil [] = refl
any_conflict-nil (c ∷ cs) = any_conflict-nil cs

claims_conflict-index :
    (a b : List Claim) → claims_conflict a b ≡ any_conflict a (index_claims b [])
unfolding claims_conflict
claims_conflict-index [] b = unfold any_conflict in refl
claims_conflict-index (c ∷ cs) [] = unfold index_claims in sym (any_conflict-nil (c ∷ cs))
claims_conflict-index (c ∷ cs) (d ∷ ds) = refl

-- Two lists of distinct resources conflict exactly when they share a resource that one writes.
pub claims_conflict-Clash :
    (a b : List Claim) → IsDistinct a → IsDistinct b → (claims_conflict a b ≡ true) ↔ Clash a b
claims_conflict-Clash a b da db = rw (claims_conflict-index a b) (
  λ h.
      let (r, x, y, p, q, w) = any_conflict_sound a (index_claims b []) da h in
      (r, x, y, p, ground (arith, lookup-index r b db), w),
  λ (r, x, y, p, q, w).
      any_conflict_complete a (index_claims b []) r x y p (lookup-index r b db ∙ q) w,
)

bool_ext : (p q : Bool) → (p ≡ true → q ≡ true) → (q ≡ true → p ≡ true) → p ≡ q
bool_ext p q f g = ground arith

one_writes_comm : (x y : ℕ) → one_writes x y ≡ one_writes y x
one_writes_comm x y = ground arith

Clash-comm : (a b : List Claim) → Clash a b → Clash b a
Clash-comm a b (r, x, y, p, q, w) = (r, y, x, q, p, one_writes_comm y x ∙ w)

-- The test is symmetric on lists of distinct resources.
pub claims_conflict_comm :
    (a b : List Claim) → IsDistinct a → IsDistinct b → claims_conflict a b ≡ claims_conflict b a
claims_conflict_comm a b da db =
    bool_ext _ _
      (λ h.
        (claims_conflict-Clash b a db da).1
          (Clash-comm a b ((claims_conflict-Clash a b da db).0 h)))
      (λ h.
        (claims_conflict-Clash a b da db).1
          (Clash-comm b a ((claims_conflict-Clash b a db da).0 h)))
