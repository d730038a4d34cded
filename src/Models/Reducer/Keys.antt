-- ===== src/Models/Reducer/Keys.antt =====
-- The order of the sorted keys of core/models/reducer.go.
use serpe.Base.{
  ℕ, suc, ◌≡◌, refl, inl, inr, arith, Bool-cases, IsUnique, ◌≤◌, Bool, true, not, ◌&&◌, none, List,
  [], ◌∷◌, ◌==◌, ltb, Assoc, lookup, pair_eq, bytes_eq, nat_eq,
}
use serpe.Models.Reducer.Finish.{insert_index, sorted_keys}

abbrev pub IsIncreasingFrom : ℕ → List ℕ → Type 0
IsIncreasingFrom low [] = Unit
IsIncreasingFrom low (j ∷ js) = (low ≤ j) × IsIncreasingFrom (suc j) js

abbrev is_absent : ℕ → List ℕ → Bool
is_absent i [] = true
is_absent i (j ∷ js) = not (j == i) && is_absent i js

IsIncreasingFrom-weaken :
    (low high : ℕ) (js : List ℕ) → low ≤ high → IsIncreasingFrom high js → IsIncreasingFrom low js
IsIncreasingFrom-weaken low high [] le h = tt
IsIncreasingFrom-weaken low high (j ∷ js) le h = (omega (arith, h.0), h.1)

insert_index-IsIncreasingFrom :
    (low i : ℕ) (js : List ℕ)
    → low ≤ i
    → is_absent i js ≡ true
    → IsIncreasingFrom low js
    → IsIncreasingFrom low (insert_index i js)
unfolding insert_index
insert_index-IsIncreasingFrom low i [] le new h = (le, tt)
insert_index-IsIncreasingFrom low i (j ∷ js) le new h = elim (Bool-cases (ltb j i)) [
  | inl below ↦
      rw below (h.0, insert_index-IsIncreasingFrom (suc j) i js (ground arith) (ground arith) h.1)
  | inr above ↦ rw above (le, (ground arith, h.1))
]

is_absent-insert_index :
    (i k : ℕ) (js : List ℕ) → is_absent k (insert_index i js) ≡ (not (i == k) && is_absent k js)
unfolding insert_index
is_absent-insert_index i k [] = refl
is_absent-insert_index i k (j ∷ js) = ground (arith, is_absent-insert_index i k js)

is_absent-sorted_keys {ℓ} :
    {V : Type ℓ} (i : ℕ) (m : Assoc ℕ V) → lookup i m ≡ none → is_absent i (sorted_keys m) ≡ true
unfolding sorted_keys lookup
is_absent-sorted_keys i [] h = refl
is_absent-sorted_keys i ((j, v) ∷ m) h =
    ground (arith, is_absent-sorted_keys i m, is_absent-insert_index j i (sorted_keys m))

pub sorted_keys-IsIncreasingFrom {ℓ} :
    {V : Type ℓ} (m : Assoc ℕ V) → IsUnique m → IsIncreasingFrom 0 (sorted_keys m)
unfolding sorted_keys
sorted_keys-IsIncreasingFrom [] u = tt
sorted_keys-IsIncreasingFrom ((j, v) ∷ m) u =
    insert_index-IsIncreasingFrom 0 j (sorted_keys m) (omega arith) (is_absent-sorted_keys j m u.0)
      (sorted_keys-IsIncreasingFrom m u.1)
