-- ===== src/Sessions/Memory.antt =====
-- runtime/sessions/memory.go: the store in memory. The mutex makes every operation one step. The
-- context is asked where the code asks it; `cancelled` is its answer, and in the loops over the map its
-- answer by the number of the entries that have been seen.
pub mod Refines
pub mod Listed
pub use serpe.Base.{ok, err}
use serpe.Base.{
  Fallible, ℕ, suc, ◌%◌, Bool, true, false, not, ◌&&◌, ◌||◌, Option, none, some, List, [], ◌∷◌,
  ◌==◌, nat_eq, if◌then◌else◌, Bytes, bytes_eq, bytes_beq, Assoc, lookup, has, put, remove,
}
use serpe.Sessions.{
  StoreError, invalid, store_closed, not_found, already_exists, cancelled, valid_id, valid_page,
}
use serpe.Sessions.Page.{select_page_id, complete_id_page}

pub record MemoryStore : Type 0 where
  pub saved : Assoc Bytes Bytes
  pub closed : Bool

abbrev pub new_memory_store : MemoryStore
new_memory_store = record { saved = []; closed = false }

abbrev pub Result {ℓ} : Type ℓ → Type ℓ
Result A = Fallible StoreError A

-- What every data operation tests first.
unfoldable pub check : Bool → Bytes → MemoryStore → Option StoreError
unfolding valid_id
check done id s =
    if not (valid_id id)
    then some invalid
    else if s.closed
    then some store_closed
    else if done
    then some cancelled
    else none

unfoldable pub create : Bool → Bytes → Bytes → MemoryStore → MemoryStore × Result (Unit {0})
unfolding check lookup put bytes_beq
create done id bytes s = elim (check done id s) [
  | some e ↦ (s, err e)
  | none ↦
      if has id s.saved
      then (s, err already_exists)
      else (record s { saved = put id bytes s.saved }, ok tt)
]

unfoldable pub load : Bool → Bytes → MemoryStore → Result Bytes
unfolding check lookup bytes_beq
load done id s = elim (check done id s) [
  | some e ↦ err e
  | none ↦ elim (lookup id s.saved) [ none ↦ err not_found | some bytes ↦ ok bytes ]
]

unfoldable pub save : Bool → Bytes → Bytes → MemoryStore → MemoryStore × Result (Unit {0})
unfolding check lookup put bytes_beq
save done id bytes s = elim (check done id s) [
  | some e ↦ (s, err e)
  | none ↦
      if not (has id s.saved)
      then (s, err not_found)
      else (record s { saved = put id bytes s.saved }, ok tt)
]

unfoldable pub delete : Bool → Bytes → MemoryStore → MemoryStore × Result (Unit {0})
unfolding check lookup remove bytes_beq
delete done id s = elim (check done id s) [
  | some e ↦ (s, err e)
  | none ↦
      if not (has id s.saved)
      then (s, err not_found)
      else (record s { saved = remove id s.saved }, ok tt)
]

-- The loop of `List`.
unfoldable pub list_records : (ℕ → Bool) → ℕ → Assoc Bytes Bytes → Result (Assoc Bytes Bytes)
list_records done seen [] = ok []
list_records done seen ((id, bytes) ∷ rest) =
    let more = list_records done (suc seen) rest in
    if done seen
    then err cancelled
    else elim more [ err e ↦ err e | ok records ↦ ok ((id, bytes) ∷ records) ]

unfoldable pub list : Bool → (ℕ → Bool) → MemoryStore → Result (Assoc Bytes Bytes)
unfolding list_records
list done done_at s =
    if s.closed
    then err store_closed
    else if done
    then err cancelled
    else list_records done_at 0 s.saved

-- The loop of `ListIDsPage`; the context is asked at every 256th entry.
unfoldable pub select_from :
    (ℕ → Bool) → Bytes → ℕ → ℕ → List Bytes → Assoc Bytes Bytes → Result (List Bytes)
unfolding select_page_id
select_from done after capacity seen selected [] = ok selected
select_from done after capacity seen selected ((id, bytes) ∷ rest) =
    let more =
      select_from done after capacity (suc seen) (select_page_id selected id after capacity) rest in
    if suc seen % 256 == 0 && done (suc seen) then err cancelled else more

unfoldable pub list_ids_page :
    Bool → (ℕ → Bool) → Bytes → ℕ → MemoryStore → Result (List Bytes × Bytes)
unfolding valid_page select_from complete_id_page
list_ids_page done done_at after limit s =
    if not (valid_page after limit)
    then err invalid
    else if s.closed
    then err store_closed
    else if done
    then err cancelled
    else elim (select_from done_at after (suc limit) 0 [] s.saved) [
      | err e ↦ err e
      | ok selected ↦ ok (complete_id_page selected limit)
    ]

-- `Close`
abbrev pub close_store : MemoryStore → MemoryStore
close_store s = record s { closed = true }
