-- ===== src/Sessions/Page/Heap.antt =====
-- The heap of runtime/sessions/store.go holds, sorted, what a page of IDs in their order would.
use serpe.Base.{
  contains, ℕ, suc, ◌≤◌, ◌≡◌, refl, ap, ◌∙◌, inl, inr, true, false, not, ◌||◌, List, [], ◌∷◌, ltb,
  if◌then◌else◌, ◌==◌, ==_iff, nat_eq, Bytes, bytes_eq, bytes_ltb, bytes_ltb_total, bytes_ltb_asym,
  bytes_ltb_trans, bytes_le_lt_trans, length, arith, Bool-cases, All,
}
use serpe.Sessions.Page.{
  less, heap_push, heap_fix, insert_id, sort_strings, last_id, replace_root, select_page_id,
}
use serpe.Sessions.Page.Smallest.{without_last, placed_page_id, length-insert_id, lt_of_ne}
use serpe.Sessions.Page.Placed.{contains-insert_id}

-- Every entry is less than `r`.
abbrev Below : Bytes → List Bytes → Type 0
Below r = All (λ y. bytes_ltb y r ≡ true)

-- The root is the greatest ID.
abbrev pub IsHeap : List Bytes → Type 0
IsHeap [] = Unit
IsHeap (r ∷ rest) = Below r rest

abbrev pub AreDifferent : List Bytes → Type 0
AreDifferent [] = Unit
AreDifferent (x ∷ xs) = (contains x xs ≡ false) × AreDifferent xs

insert_id_comm :
    (v w : Bytes) (xs : List Bytes) → insert_id v (insert_id w xs) ≡ insert_id w (insert_id v xs)
unfolding insert_id
insert_id_comm v w [] = ground (arith, bytes_ltb_asym v w, bytes_ltb_total v w)
insert_id_comm v w (x ∷ xs) = ground (
  arith,
  insert_id_comm v w xs,
  bytes_ltb_asym v w,
  bytes_ltb_total v w,
  bytes_le_lt_trans v x w,
  bytes_le_lt_trans w x v,
)

sort_strings-heap_push :
    (id : Bytes) (xs : List Bytes) → sort_strings (heap_push id xs) ≡ insert_id id (sort_strings xs)
unfolding sort_strings heap_push
sort_strings-heap_push id [] = refl
sort_strings-heap_push id (r ∷ rest) = elim (Bool-cases (less id r)) [
  | inl first ↦ rw (first, heap_push) refl
  | inr behind ↦ rw (behind, heap_push) (insert_id_comm r id (sort_strings rest))
]

sort_strings-heap_fix : (xs : List Bytes) → sort_strings (heap_fix xs) ≡ sort_strings xs
unfolding sort_strings heap_fix
sort_strings-heap_fix [] = refl
sort_strings-heap_fix (x ∷ xs) =
    sort_strings-heap_push x (heap_fix xs) ∙ ap (insert_id x) (sort_strings-heap_fix xs)

length-sort_strings : (xs : List Bytes) → length (sort_strings xs) ≡ length xs
unfolding sort_strings
length-sort_strings [] = refl
length-sort_strings (x ∷ xs) =
    length-insert_id x (sort_strings xs) ∙ ap (λ n. suc n) (length-sort_strings xs)

pub contains-sort_strings :
    (k : Bytes) (xs : List Bytes) → contains k (sort_strings xs) ≡ contains k xs
unfolding sort_strings
contains-sort_strings k [] = refl
contains-sort_strings k (x ∷ xs) =
    contains-insert_id k x (sort_strings xs) ∙ ap (λ b. x == k || b) (contains-sort_strings k xs)

contains-heap_push :
    (k id : Bytes) (xs : List Bytes) → contains k (heap_push id xs) ≡ (id == k || contains k xs)
unfolding heap_push
contains-heap_push k id [] = refl
contains-heap_push k id (r ∷ rest) = ground arith

contains-heap_fix : (k : Bytes) (xs : List Bytes) → contains k (heap_fix xs) ≡ contains k xs
unfolding heap_fix
contains-heap_fix k [] = refl
contains-heap_fix k (x ∷ xs) =
    contains-heap_push k x (heap_fix xs) ∙ ap (λ b. x == k || b) (contains-heap_fix k xs)

Below-trans : (r s : Bytes) (xs : List Bytes) → bytes_ltb r s ≡ true → Below r xs → Below s xs
Below-trans r s [] lt h = tt
Below-trans r s (x ∷ xs) lt h = (bytes_ltb_trans x r s h.0 lt, Below-trans r s xs lt h.1)

not_same : (x y : Bytes) → (x == y) ≡ false → (y == x) ≡ false
not_same x y h = ground (arith, ==_iff x y, ==_iff y x)

heap_push-IsHeap :
    (id : Bytes) (xs : List Bytes) → contains id xs ≡ false → IsHeap xs → IsHeap (heap_push id xs)
unfolding heap_push less
heap_push-IsHeap id [] new h = tt
heap_push-IsHeap id (r ∷ rest) new h = elim (Bool-cases (bytes_ltb r id)) [
  | inl above ↦ rw (above, heap_push, less) (above, Below-trans r id rest above h)
  | inr not_above ↦
      rw (not_above, heap_push, less)
        (lt_of_ne id r (not_same r id (ground (arith, new))) not_above, h)
]

heap_push-AreDifferent :
    (id : Bytes) (xs : List Bytes)
    → contains id xs ≡ false
    → AreDifferent xs
    → AreDifferent (heap_push id xs)
unfolding heap_push
heap_push-AreDifferent id [] new h = (refl, tt)
heap_push-AreDifferent id (r ∷ rest) new h = elim (Bool-cases (less id r)) [
  | inl first ↦ rw (first, heap_push) (new, h)
  | inr behind ↦
      let other : (r == id) ≡ false = ground (arith, new) in
      rw (behind, heap_push) (ground (arith, not_same r id other, h.0), (ground (arith, new), h.1))
]

heap_fix-AreDifferent : (xs : List Bytes) → AreDifferent xs → AreDifferent (heap_fix xs)
unfolding heap_fix
heap_fix-AreDifferent [] h = tt
heap_fix-AreDifferent (x ∷ xs) h =
    heap_push-AreDifferent x (heap_fix xs) (contains-heap_fix x xs ∙ h.0)
      (heap_fix-AreDifferent xs h.1)

heap_fix-IsHeap : (xs : List Bytes) → AreDifferent xs → IsHeap (heap_fix xs)
unfolding heap_fix
heap_fix-IsHeap [] h = tt
heap_fix-IsHeap (x ∷ xs) h =
    heap_push-IsHeap x (heap_fix xs) (contains-heap_fix x xs ∙ h.0) (heap_fix-IsHeap xs h.1)

Below-insert_id :
    (r id : Bytes) (xs : List Bytes)
    → bytes_ltb id r ≡ true
    → Below r xs
    → Below r (insert_id id xs)
unfolding insert_id
Below-insert_id r id [] lt h = (lt, tt)
Below-insert_id r id (x ∷ xs) lt h = elim (Bool-cases (bytes_ltb x id)) [
  | inl before ↦ rw (before, insert_id) (h.0, Below-insert_id r id xs lt h.1)
  | inr after ↦ rw (after, insert_id) (lt, h)
]

Below-sort_strings : (r : Bytes) (xs : List Bytes) → Below r xs → Below r (sort_strings xs)
unfolding sort_strings
Below-sort_strings r [] h = tt
Below-sort_strings r (x ∷ xs) h =
    Below-insert_id r x (sort_strings xs) h.0 (Below-sort_strings r xs h.1)

-- The greatest ID comes last.
insert_id-last :
    (r : Bytes) (xs : List Bytes)
    → Below r xs
    → (last_id (insert_id r xs) ≡ r) × (without_last (insert_id r xs) ≡ xs)
unfolding insert_id last_id without_last
insert_id-last r [] h = (refl, refl)
insert_id-last r (x ∷ []) h = rw (h.0, insert_id) (refl, refl)
insert_id-last r (x ∷ y ∷ ys) h =
    let (last, rest) = insert_id-last r (y ∷ ys) h.1 in
    rw (h.0, insert_id)
      (rw (h.1.0, insert_id)
        (
          rw (h.1.0, insert_id) at last,
          ap (λ (l : List Bytes). x ∷ l) (rw (h.1.0, insert_id) at rest),
        ))

-- A heap that stands for a sorted list of its IDs.
pub record Stands (heap sorted : List Bytes) : Type 0 where
  pub ordered : IsHeap heap
  pub different : AreDifferent heap
  pub same : sort_strings heap ≡ sorted

replace_root-Stands :
    (id : Bytes) (xs : List Bytes)
    → contains id xs ≡ false
    → IsHeap xs
    → AreDifferent xs
    → (1 ≤ length xs)
    → Stands (replace_root id xs) (
        if not (bytes_ltb id (last_id (sort_strings xs)))
        then sort_strings xs
        else insert_id id (without_last (sort_strings xs)))
unfolding replace_root sort_strings
replace_root-Stands id [] new h d some_ids = absurd (omega (arith, some_ids))
replace_root-Stands id (r ∷ rest) new h d some_ids =
    let (last, others) = insert_id-last r (sort_strings rest) (Below-sort_strings r rest h) in
    let fresh : AreDifferent (id ∷ rest) = (ground (arith, new), d.1) in
    elim (Bool-cases (bytes_ltb id r)) [
      | inl below ↦
          rw (last, others, below, replace_root)
            (record {
              ordered = heap_fix-IsHeap (id ∷ rest) fresh;
              different = heap_fix-AreDifferent (id ∷ rest) fresh;
              same = sort_strings-heap_fix (id ∷ rest);
            })
      | inr not_below ↦
          rw (last, not_below, replace_root) (record { ordered = h; different = d; same = refl })
    ]

pub select_page_id-Stands :
    (heap sorted : List Bytes) (id after : Bytes) (capacity : ℕ)
    → Stands heap sorted
    → contains id heap ≡ false
    → Stands
        (select_page_id heap id after (suc capacity))
        (placed_page_id sorted id after (suc capacity))
unfolding select_page_id placed_page_id
select_page_id-Stands heap sorted id after capacity s new =
    rw (← s.same) (elim (Bool-cases (bytes_ltb after id)) [
      | inr before ↦
          rw (before, select_page_id, placed_page_id)
            (record { ordered = s.ordered; different = s.different; same = refl })
      | inl behind ↦ elim (Bool-cases (ltb (length heap) (suc capacity))) [
        | inl room ↦
            rw (behind, length-sort_strings heap, room, select_page_id, placed_page_id)
              (record {
                ordered = heap_push-IsHeap id heap new s.ordered;
                different = heap_push-AreDifferent id heap new s.different;
                same = sort_strings-heap_push id heap;
              })
        | inr full ↦
            rw (behind, length-sort_strings heap, full, select_page_id, placed_page_id)
              (replace_root-Stands id heap new s.ordered s.different (ground (arith, full)))
      ]
    ])
