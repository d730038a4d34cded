-- ===== src/Sessions/Page/Smallest.antt =====
-- A page of IDs in their order that takes in one more: the page selection of runtime/sessions/store.go,
-- as it would be on a sorted list, keeps the smallest IDs.
use serpe.Base.{
  contains, ℕ, zero, suc, ◌≤◌, ◌≡◌, refl, sym, ap, inl, inr, true, false, not, List, [], ◌∷◌, ltb,
  if◌then◌else◌, ◌==◌, ==_iff, Bytes, bytes_eq, bytes_ltb, bytes_ltb_total, bytes_ltb_asym,
  bytes_le_lt_trans, length, take, arith, Bool-cases, All, ltb→lt,
}
use serpe.Sessions.Page.{insert_id, last_id}

unfoldable pub without_last : List Bytes → List Bytes
without_last [] = []
without_last (x ∷ []) = []
without_last (x ∷ y ∷ ys) = x ∷ without_last (y ∷ ys)

unfoldable pub placed_page_id : List Bytes → Bytes → Bytes → ℕ → List Bytes
unfolding insert_id last_id without_last bytes_ltb
placed_page_id selected id after capacity =
    if not (bytes_ltb after id)
    then selected
    else if ltb (length selected) capacity
    then insert_id id selected
    else if not (bytes_ltb id (last_id selected))
    then selected
    else insert_id id (without_last selected)

-- `x` is less than every entry.
abbrev pub Above : Bytes → List Bytes → Type 0
Above x = All (λ y. bytes_ltb x y ≡ true)

abbrev pub IsIncreasing : List Bytes → Type 0
IsIncreasing [] = Unit
IsIncreasing (x ∷ xs) = Above x xs × IsIncreasing xs

lt_of_lt_le :
    (x r id : Bytes) → bytes_ltb x r ≡ true → bytes_ltb id r ≡ false → bytes_ltb x id ≡ true
lt_of_lt_le x r id lt ge = elim (Bool-cases (bytes_ltb x id)) [
  | inl yes_less ↦ yes_less
  | inr no_less ↦ absurd (cc (bytes_le_lt_trans id x r no_less lt, ge))
]

pub lt_of_ne : (x id : Bytes) → (x == id) ≡ false → bytes_ltb id x ≡ false → bytes_ltb x id ≡ true
lt_of_ne x id ne ge = elim (Bool-cases (bytes_ltb x id)) [
  | inl yes_less ↦ yes_less
  | inr no_less ↦ absurd (cc ((==_iff x id).1 (bytes_ltb_total x id no_less ge), ne))
]

pub take-all : (n : ℕ) (xs : List Bytes) → length xs ≤ n → take n xs ≡ xs
take-all zero [] h = refl
take-all zero (x ∷ xs) h = absurd (omega (arith, h))
take-all (suc n) [] h = refl
take-all (suc n) (x ∷ xs) h = ap (λ (l : List Bytes). x ∷ l) (take-all n xs (omega (arith, h)))

pub take-take-suc : (n : ℕ) (xs : List Bytes) → take n (take (suc n) xs) ≡ take n xs
take-take-suc zero xs = refl
take-take-suc (suc n) [] = refl
take-take-suc (suc n) (x ∷ xs) = ap (λ (l : List Bytes). x ∷ l) (take-take-suc n xs)

pub length-take_le : (n : ℕ) (xs : List Bytes) → length (take n xs) ≤ n
length-take_le zero xs = omega arith
length-take_le (suc n) [] = omega arith
length-take_le (suc n) (x ∷ xs) = omega (arith, length-take_le n xs)

-- What lies behind the first entries does not matter to an insertion among them.
pub take-insert_id :
    (n : ℕ) (id : Bytes) (xs : List Bytes)
    → take n (insert_id id (take n xs)) ≡ take n (insert_id id xs)
unfolding insert_id
take-insert_id zero id xs = refl
take-insert_id (suc n) id [] = refl
take-insert_id (suc n) id (x ∷ xs) = elim (Bool-cases (bytes_ltb x id)) [
  | inl lt ↦ rw (lt, insert_id) (ap (λ (l : List Bytes). x ∷ l) (take-insert_id n id xs))
  | inr ge ↦ rw (ge, insert_id) (ap (λ (l : List Bytes). id ∷ l) (front n xs))
]
  where
    front : (n : ℕ) (xs : List Bytes) → take n (x ∷ take n xs) ≡ take n (x ∷ xs)
    front zero xs = refl
    front (suc n) [] = refl
    front (suc n) (y ∷ ys) = ap (λ (l : List Bytes). x ∷ l) (tail n y ys)
      where
        tail : (n : ℕ) (y : Bytes) (ys : List Bytes) → take n (y ∷ take n ys) ≡ take n (y ∷ ys)
        tail zero y ys = refl
        tail (suc n) y [] = refl
        tail (suc n) y (z ∷ zs) = ap (λ (l : List Bytes). y ∷ l) (tail n z zs)

pub length-insert_id : (id : Bytes) (xs : List Bytes) → length (insert_id id xs) ≡ suc (length xs)
unfolding insert_id
length-insert_id id [] = refl
length-insert_id id (x ∷ xs) = ground (arith, length-insert_id id xs)

without_last-take :
    (y : Bytes) (ys : List Bytes) → without_last (y ∷ ys) ≡ take (length ys) (y ∷ ys)
unfolding without_last
without_last-take y [] = refl
without_last-take y (z ∷ zs) = ap (λ (l : List Bytes). y ∷ l) (without_last-take z zs)

-- An ID below the last_id takes its place.
insert_id-below :
    (id : Bytes) (x : Bytes) (xs : List Bytes)
    → bytes_ltb id (last_id (x ∷ xs)) ≡ true
    → insert_id id (without_last (x ∷ xs)) ≡ take (suc (length xs)) (insert_id id (x ∷ xs))
unfolding insert_id last_id without_last
insert_id-below id x [] lt = rw (bytes_ltb_asym id x lt) refl
insert_id-below id x (y ∷ ys) lt = elim (Bool-cases (bytes_ltb x id)) [
  | inl less ↦ rw less (ap (λ (l : List Bytes). x ∷ l) (insert_id-below id y ys lt))
  | inr more ↦ rw more (ap (λ (l : List Bytes). id ∷ x ∷ l) (without_last-take y ys))
]

last_id-Above :
    (x y : Bytes) (ys : List Bytes) → Above x (y ∷ ys) → bytes_ltb x (last_id (y ∷ ys)) ≡ true
unfolding last_id
last_id-Above x y [] h = h.0
last_id-Above x y (z ∷ zs) h = last_id-Above x z zs h.1

-- An ID from the last_id on is not among the smallest.
insert_id-beyond :
    (id : Bytes) (x : Bytes) (xs : List Bytes)
    → IsIncreasing (x ∷ xs)
    → contains id (x ∷ xs) ≡ false
    → bytes_ltb id (last_id (x ∷ xs)) ≡ false
    → x ∷ xs ≡ take (suc (length xs)) (insert_id id (x ∷ xs))
unfolding insert_id last_id
insert_id-beyond id x [] sorted new ge = rw (lt_of_ne x id (ground (arith, new)) ge) refl
insert_id-beyond id x (y ∷ ys) sorted new ge =
    rw (lt_of_lt_le x (last_id (y ∷ ys)) id (last_id-Above x y ys sorted.0) ge)
      (ap (λ (l : List Bytes). x ∷ l) (insert_id-beyond id y ys sorted.1 (ground (arith, new)) ge))

pub placed_page_id-take :
    (selected : List Bytes) (id after : Bytes) (capacity : ℕ)
    → IsIncreasing selected
    → contains id selected ≡ false
    → length selected ≤ suc capacity
    → bytes_ltb after id ≡ true
    → placed_page_id selected id after (suc capacity) ≡ take (suc capacity) (insert_id id selected)
unfolding placed_page_id
placed_page_id-take selected id after capacity sorted new le behind =
    elim (Bool-cases (ltb (length selected) (suc capacity))) [
      | inl room ↦
          rw (behind, room)
            (sym (
              take-all (suc capacity) (insert_id id selected) (
                omega (
                  arith,
                  length-insert_id id selected,
                  ltb→lt (length selected) (suc capacity) room,
                ))))
      | inr full ↦ rw (behind, full) (by_last selected sorted new (ground (arith, full)))
    ]
  where
    by_last :
        (xs : List Bytes)
        → IsIncreasing xs
        → contains id xs ≡ false
        → length xs ≡ suc capacity
        → (if not (bytes_ltb id (last_id xs)) then xs else insert_id id (without_last xs))
          ≡ take (suc capacity) (insert_id id xs)
    by_last [] sorted new len = absurd (omega (arith, len))
    by_last (x ∷ xs) sorted new len =
        rw (← len) (elim (Bool-cases (bytes_ltb id (last_id (x ∷ xs)))) [
          | inl lt ↦ rw lt (insert_id-below id x xs lt)
          | inr ge ↦ rw ge (insert_id-beyond id x xs sorted new ge)
        ])
