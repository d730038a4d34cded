-- ===== src/Sessions/Page/Placed.antt =====
-- What putting an ID in its place among others keeps, for the pages of runtime/sessions/store.go.
use serpe.Base.{
  contains, ℕ, zero, suc, ◌≡◌, refl, inl, inr, true, false, ◌||◌, List, [], ◌∷◌, ◌==◌, ==_iff,
  nat_eq, Bytes, bytes_eq, bytes_ltb, bytes_ltb_trans, take, arith, Bool-cases,
}
use serpe.Sessions.Page.{insert_id}
use serpe.Sessions.Page.Smallest.{Above, IsIncreasing, lt_of_ne}

pub contains-insert_id :
    (k id : Bytes) (xs : List Bytes) → contains k (insert_id id xs) ≡ (id == k || contains k xs)
unfolding insert_id
contains-insert_id k id [] = refl
contains-insert_id k id (x ∷ xs) = ground (arith, contains-insert_id k id xs)

pub contains-take :
    (k : Bytes) (n : ℕ) (xs : List Bytes) → contains k xs ≡ false → contains k (take n xs) ≡ false
contains-take k zero xs h = refl
contains-take k (suc n) [] h = refl
contains-take k (suc n) (x ∷ xs) h = ground (arith, contains-take k n xs)

pub Above-take : (x : Bytes) (n : ℕ) (xs : List Bytes) → Above x xs → Above x (take n xs)
Above-take x zero xs h = tt
Above-take x (suc n) [] h = tt
Above-take x (suc n) (y ∷ ys) h = (h.0, Above-take x n ys h.1)

pub IsIncreasing-take : (n : ℕ) (xs : List Bytes) → IsIncreasing xs → IsIncreasing (take n xs)
IsIncreasing-take zero xs h = tt
IsIncreasing-take (suc n) [] h = tt
IsIncreasing-take (suc n) (x ∷ xs) h = (Above-take x n xs h.0, IsIncreasing-take n xs h.1)

pub Above-insert_id :
    (y id : Bytes) (xs : List Bytes)
    → bytes_ltb y id ≡ true
    → Above y xs
    → Above y (insert_id id xs)
unfolding insert_id
Above-insert_id y id [] lt h = (lt, tt)
Above-insert_id y id (x ∷ xs) lt h = elim (Bool-cases (bytes_ltb x id)) [
  | inl less ↦ rw (less, insert_id) (h.0, Above-insert_id y id xs lt h.1)
  | inr more ↦ rw (more, insert_id) (lt, h)
]

pub Above-trans : (y x : Bytes) (xs : List Bytes) → bytes_ltb y x ≡ true → Above x xs → Above y xs
Above-trans y x [] lt h = tt
Above-trans y x (z ∷ zs) lt h = (bytes_ltb_trans y x z lt h.0, Above-trans y x zs lt h.1)

pub insert_id-IsIncreasing :
    (id : Bytes) (xs : List Bytes)
    → contains id xs ≡ false
    → IsIncreasing xs
    → IsIncreasing (insert_id id xs)
unfolding insert_id
insert_id-IsIncreasing id [] new h = (tt, tt)
insert_id-IsIncreasing id (x ∷ xs) new h = elim (Bool-cases (bytes_ltb x id)) [
  | inl less ↦
      rw (less, insert_id)
        (Above-insert_id x id xs less h.0, insert_id-IsIncreasing id xs (ground (arith, new)) h.1)
  | inr more ↦
      let lt = lt_of_ne id x (not_equal (ground (arith, new))) more in
      rw (more, insert_id) ((lt, Above-trans id x xs lt h.0), h)
]
  where
    not_equal : (x == id) ≡ false → (id == x) ≡ false
    not_equal h = ground (arith, ==_iff x id, ==_iff id x)
