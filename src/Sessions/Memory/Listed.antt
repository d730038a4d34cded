-- ===== src/Sessions/Memory/Listed.antt =====
-- The pages of ListIDsPage of runtime/sessions/memory.go.
use serpe.Base.{
  contains, Fallible-cases, ℕ, zero, suc, ◌≤◌, ◌≡◌, refl, sym, ap, subst, ◌∙◌, inl, inr, Bool, true,
  false, ◌&&◌, ◌||◌, none, List, [], ◌∷◌, ltb, leb, if◌then◌else◌, ◌==◌, ==_iff, nat_eq, Bytes,
  bytes_eq, bytes_ltb, length, take, arith, Bool-cases, ltb→lt, Assoc, lookup, has, IsUnique,
}
use Prim.Native.Nat.{min}
use serpe.Sessions.{valid_page}
use serpe.Sessions.Page.{insert_id, last_id, sort_strings, select_page_id, complete_id_page}
use serpe.Sessions.Page.Heap.{Stands, select_page_id-Stands, contains-sort_strings}
use serpe.Sessions.Page.Smallest.{
  IsIncreasing, placed_page_id, placed_page_id-take, take-take-suc, take-insert_id, take-all,
  length-take_le,
}
use serpe.Sessions.Memory.{MemoryStore, ok, select_from, list_ids_page}
use serpe.Sessions.Page.Placed.{
  contains-insert_id, contains-take, IsIncreasing-take, insert_id-IsIncreasing,
}

-- The IDs of the map behind the cursor, each put in its place among the others.
unfoldable pub ids_behind : Bytes → List Bytes → Assoc Bytes Bytes → List Bytes
unfolding insert_id
ids_behind after acc [] = acc
ids_behind after acc ((id, bytes) ∷ rest) =
    ids_behind after (if bytes_ltb after id then insert_id id acc else acc) rest

-- No ID of the map is among those that have been put in their places.
abbrev AreNew : List Bytes → Assoc Bytes Bytes → Type 0
AreNew acc rest = (k : Bytes) → has k rest ≡ true → contains k acc ≡ false

module _ (after : Bytes) where
  abbrev next_acc : List Bytes → Bytes → List Bytes
  next_acc acc id = if bytes_ltb after id then insert_id id acc else acc

  module _ (acc : List Bytes) (id bytes : Bytes) (rest : Assoc Bytes Bytes)
      (unique : (lookup id rest ≡ none) × IsUnique rest)
      (new : AreNew acc ((id, bytes) ∷ rest)) where
    head_new : contains id acc ≡ false
    unfolding lookup
    head_new = new id (ground (arith, (==_iff id id).1 refl))

    next-AreNew : AreNew (next_acc acc id) rest
    unfolding lookup
    next-AreNew k known =
        let old : contains k acc ≡ false = new k (ground arith) in
        let other : (id == k) ≡ false = ground (arith, ==_iff id k, unique.0) in
        elim (Bool-cases (bytes_ltb after id)) [
          | inl behind ↦ rw (behind, contains-insert_id k id acc, other) old
          | inr before ↦ rw before old
        ]

    next-IsIncreasing : IsIncreasing acc → IsIncreasing (next_acc acc id)
    next-IsIncreasing h = elim (Bool-cases (bytes_ltb after id)) [
      | inl behind ↦ rw behind (insert_id-IsIncreasing id acc head_new h)
      | inr before ↦ rw before h
    ]

    -- The selected IDs stay the smallest of those that have been put in their places.
    placed_page_id-next :
        (capacity : ℕ)
        → IsIncreasing acc
        → placed_page_id (take (suc capacity) acc) id after (suc capacity)
          ≡ take (suc capacity) (next_acc acc id)
    placed_page_id-next capacity sorted = elim (Bool-cases (bytes_ltb after id)) [
      | inl behind ↦ rw behind (
          placed_page_id-take (take (suc capacity) acc) id after capacity
            (IsIncreasing-take (suc capacity) acc sorted)
            (contains-take id (suc capacity) acc head_new) (length-take_le (suc capacity) acc)
            behind
          ∙ take-insert_id (suc capacity) id acc)
      | inr before ↦ rw before (unfold placed_page_id in rw before refl)
    ]

  select_from-take :
      (done : ℕ → Bool) (capacity seen : ℕ) (acc heap : List Bytes) (rest : Assoc Bytes Bytes)
      (out : List Bytes)
      → IsUnique rest
      → AreNew acc rest
      → IsIncreasing acc
      → Stands heap (take (suc capacity) acc)
      → select_from done after (suc capacity) seen heap rest ≡ ok out
      → (sort_strings out ≡ take (suc capacity) (ids_behind after acc rest))
        × IsIncreasing (ids_behind after acc rest)
  unfolding select_from ids_behind
  select_from-take done capacity seen acc heap [] out unique new sorted stands h =
      let same : heap ≡ out = cc (h) in (ap sort_strings (sym same) ∙ stands.same, sorted)
  select_from-take done capacity seen acc heap ((id, bytes) ∷ rest) out unique new sorted stands h =
      let selected = select_page_id heap id after (suc capacity) in
      let more : select_from done after (suc capacity) (suc seen) selected rest ≡ ok out =
        ground arith in
      let unseen : contains id heap ≡ false =
        sym (contains-sort_strings id heap)
        ∙ ap (contains id) stands.same
        ∙ contains-take id (suc capacity) acc (head_new acc id bytes rest unique new) in
      select_from-take done capacity (suc seen) (next_acc acc id) selected rest out unique.1
        (next-AreNew acc id bytes rest unique new)
        (next-IsIncreasing acc id bytes rest unique new sorted)
        (subst (Stands selected) (placed_page_id-next acc id bytes rest unique new capacity sorted)
          (select_page_id-Stands heap (take (suc capacity) acc) id after capacity stands unseen))
        more

  contains-ids_behind :
      (k : Bytes) (acc : List Bytes) (rest : Assoc Bytes Bytes)
      → contains k (ids_behind after acc rest)
        ≡ (contains k acc || (has k rest && bytes_ltb after k))
  unfolding ids_behind lookup
  contains-ids_behind k acc [] = ground arith
  contains-ids_behind k acc ((id, bytes) ∷ rest) =
      contains-ids_behind k (next_acc acc id) rest ∙ same
    where
      same :
          (contains k (next_acc acc id) || (has k rest && bytes_ltb after k))
          ≡ (contains k acc || (has k ((id, bytes) ∷ rest) && bytes_ltb after k))
      same = elim (Bool-cases (id == k)) [
        | inl equal ↦
            ground
              (arith, contains-insert_id k id acc, ap (bytes_ltb after) ((==_iff id k).0 equal))
        | inr other ↦ ground (arith, contains-insert_id k id acc)
      ]

length-take : (n : ℕ) (xs : List Bytes) → length (take n xs) ≡ min n (length xs)
length-take zero xs = omega arith
length-take (suc n) [] = omega arith
length-take (suc n) (x ∷ xs) = omega (arith, length-take n xs)

complete_id_page-take :
    (limit : ℕ) (all heap : List Bytes)
    → 1 ≤ limit
    → sort_strings heap ≡ take (suc limit) all
    → complete_id_page heap limit
      ≡ (take limit all, if ltb limit (length all) then last_id (take limit all) else [])
unfolding complete_id_page
complete_id_page-take limit all heap some_ids stands = elim (Bool-cases (ltb limit (length all))) [
  | inl more ↦
      let lt = ltb→lt limit (length all) more in
      let over : ltb limit (length (take (suc limit) all)) ≡ true =
        rw (length-take (suc limit) all) (ground (arith, lt)) in
      let page_full : leb (length (take limit all)) 0 ≡ false =
        rw (length-take limit all) (ground (arith, lt, some_ids)) in
      rw (stands, over, more, take-take-suc limit all, page_full) refl
  | inr last ↦
      let le : length all ≤ limit = ground arith in
      rw (stands, take-all (suc limit) all (omega (arith, le)), take-all limit all le, last)
        (ground arith)
]

valid_page-limit : (after : Bytes) (limit : ℕ) → valid_page after limit ≡ true → 1 ≤ limit
unfolding valid_page
valid_page-limit after limit h = ground arith

-- Where no ID is saved twice, a page that the store gives lists the smallest IDs behind its cursor: the
-- first `limit` of the IDs that are saved and behind the cursor, in increasing order; and it names the
-- last of them as the next cursor exactly when there are more.
pub list_ids_page-smallest :
    (done : Bool) (done_at : ℕ → Bool) (after : Bytes) (limit : ℕ) (s : MemoryStore)
    (ids : List Bytes) (next : Bytes)
    → IsUnique s.saved
    → list_ids_page done done_at after limit s ≡ ok (ids, next)
    → (let all = ids_behind after [] s.saved in
        (ids ≡ take limit all)
        × (next ≡ (if ltb limit (length all) then last_id ids else []))
        × IsIncreasing all
        × ((k : Bytes) → contains k all ≡ (has k s.saved && bytes_ltb after k)))
unfolding list_ids_page
list_ids_page-smallest done done_at after limit s ids next unique h =
    let valid : 1 ≤ limit = valid_page-limit after limit (ground arith) in
    let all = ids_behind after [] s.saved in
    elim (Fallible-cases (select_from done_at after (suc limit) 0 [] s.saved)) [
      | inr (e, broken) ↦ absurd (ground arith)
      | inl (selected, made) ↦
          let page : complete_id_page selected limit ≡ (ids, next) = ground arith in
          let (taken, sorted) =
            select_from-take after done_at limit 0 [] [] s.saved selected unique (λ k known. refl)
              tt (record { ordered = tt; different = tt; same = unfold sort_strings in refl })
              made in
          let same : (
            take limit all,
            if ltb limit (length all) then last_id (take limit all) else [],
          )
              ≡ (ids, next) =
            sym (complete_id_page-take limit all selected valid taken) ∙ page in
          let first : take limit all ≡ ids = ap (λ (p : List Bytes × Bytes). p.0) same in
          (
            sym first,
            sym (ap (λ (p : List Bytes × Bytes). p.1) same)
                ∙ ap (λ (l : List Bytes). if ltb limit (length all) then last_id l else []) first,
            sorted,
            λ k. contains-ids_behind after k [] s.saved,
          )
    ]
