-- ===== src/Sessions/Page.antt =====
-- The page selection of runtime/sessions/store.go. Of `container/heap` the code relies on the root at
-- index 0, before which no entry comes by `Less`; behind it the entries stand here in the order in which
-- they came. `sort.Strings` is an insertion by `<`: as `<` is total, the sorted list is the only one.
pub mod Smallest
pub mod Placed
pub mod Heap
use serpe.Base.{
  ℕ, suc, Bool, true, false, not, ◌||◌, Option, none, some, List, [], ◌∷◌, ltb, leb, if◌then◌else◌,
  Bytes, bytes_ltb, length, take,
}

-- `maxIDHeap.Less`: the heap has the greatest ID at its root.
unfoldable pub less : Bytes → Bytes → Bool
unfolding bytes_ltb
less a b = bytes_ltb b a

-- `heap.Push`
unfoldable pub heap_push : Bytes → List Bytes → List Bytes
unfolding less
heap_push id [] = id ∷ []
heap_push id (root ∷ rest) = if less id root then id ∷ root ∷ rest else root ∷ id ∷ rest

-- `heap.Fix` at index 0, of which the entry has been replaced.
unfoldable pub heap_fix : List Bytes → List Bytes
unfolding heap_push
heap_fix [] = []
heap_fix (id ∷ rest) = heap_push id (heap_fix rest)

unfoldable pub insert_id : Bytes → List Bytes → List Bytes
unfolding bytes_ltb
insert_id id [] = id ∷ []
insert_id id (x ∷ xs) =
    let rest = insert_id id xs in if bytes_ltb x id then x ∷ rest else id ∷ x ∷ xs

unfoldable pub sort_strings : List Bytes → List Bytes
unfolding insert_id
sort_strings [] = []
sort_strings (id ∷ ids) = insert_id id (sort_strings ids)

-- `values[len(values)-1]`
unfoldable pub last_id : List Bytes → Bytes
last_id [] = []
last_id (x ∷ []) = x
last_id (x ∷ y ∷ ys) = last_id (y ∷ ys)

-- `(*selected)[0] = id` and `heap.Fix`, where `id` is less than the root.
unfoldable pub replace_root : Bytes → List Bytes → List Bytes
unfolding heap_fix bytes_ltb
replace_root id [] = []
replace_root id (root ∷ rest) =
    if not (bytes_ltb id root) then root ∷ rest else heap_fix (id ∷ rest)

unfoldable pub select_page_id : List Bytes → Bytes → Bytes → ℕ → List Bytes
unfolding heap_push replace_root bytes_ltb
select_page_id selected id after capacity =
    if not (bytes_ltb after id)
    then selected
    else if ltb (length selected) capacity
    then heap_push id selected
    else replace_root id selected

unfoldable pub complete_id_page : List Bytes → ℕ → List Bytes × Bytes
unfolding sort_strings last_id
complete_id_page selected limit =
    let values = sort_strings selected in
    let has_more = ltb limit (length values) in
    let page = if has_more then take limit values else values in
    if leb (length page) 0 || not has_more then (page, []) else (page, last_id page)
