-- ===== src/Sessions/Memory/Refines.antt =====
-- The store of runtime/sessions/memory.go as what runtime/sessions/store.go promises of a store: a
-- partial function from IDs to records that can be closed.
use serpe.Base.{
  ◌≡◌, Bool, true, false, not, ◌&&◌, Option, none, some, ◌==◌, if◌then◌else◌, Bytes, bytes_eq,
  lookup, lookup-put, lookup-remove, arith,
}
use serpe.Sessions.{
  StoreError, store_closed, not_found, already_exists, invalid, cancelled, valid_id,
}
use serpe.Sessions.Memory.{
  MemoryStore, Result, ok, err, check, create, load, save, delete, close_store,
}

pub record Dictionary : Type 0 where
  pub contents : Bytes → Option Bytes
  pub is_closed : Bool

abbrev pub view : MemoryStore → Dictionary
view s = record { contents = λ k. lookup k s.saved; is_closed = s.closed }

pub data Request : Type 0 where
  create_request save_request : Bytes → Bytes → Request
  load_request delete_request : Bytes → Request
  close_request : Request

pub data Answer : Type 0 where
  done : Answer
  found : Bytes → Answer
  refused : StoreError → Answer

abbrev answer_of : Result (Unit {0}) → Answer
answer_of (ok u) = done
answer_of (err e) = refused e

abbrev loaded : Result Bytes → Answer
loaded (ok bytes) = found bytes
loaded (err e) = refused e

-- A request to the store in memory.
unfoldable pub serve : Bool → Request → MemoryStore → MemoryStore × Answer
unfolding create load save delete
serve over (create_request id bytes) s = let (s', r) = create over id bytes s in (s', answer_of r)
serve over (save_request id bytes) s = let (s', r) = save over id bytes s in (s', answer_of r)
serve over (load_request id) s = (s, loaded (load over id s))
serve over (delete_request id) s = let (s', r) = delete over id s in (s', answer_of r)
serve over close_request s = (close_store s, done)

-- What is promised: the ID that a request is about, and what it does there.
abbrev id_of : Request → Option Bytes
id_of (create_request id bytes) = some id
id_of (save_request id bytes) = some id
id_of (load_request id) = some id
id_of (delete_request id) = some id
id_of close_request = none

abbrev change : Bytes → Option Bytes → Dictionary → Dictionary
change id value d = record d { contents = λ k. if id == k then value else d.contents k }

abbrev at_id : Request → Option Bytes → Dictionary → Dictionary × Answer
at_id (create_request id bytes) none d = (change id (some bytes) d, done)
at_id (create_request id bytes) (some old) d = (d, refused already_exists)
at_id (save_request id bytes) (some old) d = (change id (some bytes) d, done)
at_id (save_request id bytes) none d = (d, refused not_found)
at_id (load_request id) (some old) d = (d, found old)
at_id (load_request id) none d = (d, refused not_found)
at_id (delete_request id) (some old) d = (change id none d, done)
at_id (delete_request id) none d = (d, refused not_found)
at_id close_request old d = (d, done)

-- `Close` of the interface promises that a closed store answers every data method with ErrClosed.
unfoldable pub promised : Bool → Request → Dictionary → Dictionary × Answer
unfolding valid_id
promised over r d = elim (id_of r) [
  | none ↦ (record d { is_closed = true }, done)
  | some id ↦
      if d.is_closed
      then (d, refused store_closed)
      else if not (valid_id id)
      then (d, refused invalid)
      else if over
      then (d, refused cancelled)
      else at_id r (d.contents id) d
]

-- The request is for an ID that is not valid.
abbrev pub names_invalid : Request → Bool
names_invalid r = elim (id_of r) [ none ↦ false | some id ↦ not (valid_id id) ]

-- The same dictionary, ID by ID, and the same answer.
abbrev pub Agree : MemoryStore × Answer → Dictionary × Answer → Type 0
Agree (s, a) (d, b) =
    ((k : Bytes) → lookup k s.saved ≡ d.contents k) × (s.closed ≡ d.is_closed) × (a ≡ b)

-- The store in memory does to its dictionary what is promised and answers as promised, whatever is
-- asked of it, except that a closed store refuses an ID that is not valid as invalid. A closed store, an
-- ID that is not valid and a context that is done are refused in this order otherwise; a record is
-- created only where there is none, replaced, read and deleted only where there is one; and no other ID
-- is touched.
pub serve-Agree :
    (over : Bool) (r : Request) (s : MemoryStore)
    → Agree (serve over r s) (
        if s.closed && names_invalid r then (view s, refused invalid) else promised over r (view s))
unfolding serve promised create load save delete check
serve-Agree over close_request s = (λ k. ground arith, ground arith, ground arith)
serve-Agree over (load_request id) s = (λ k. ground arith, ground arith, ground arith)
serve-Agree over (create_request id bytes) s =
    (λ k. ground (arith, lookup-put id k bytes s.saved), ground arith, ground arith)
serve-Agree over (save_request id bytes) s =
    (λ k. ground (arith, lookup-put id k bytes s.saved), ground arith, ground arith)
serve-Agree over (delete_request id) s =
    (λ k. ground (arith, lookup-remove id k s.saved), ground arith, ground arith)
