-- ===== src/Examples/Sessions.antt =====
-- Runs of the store of runtime/sessions in memory and of its theorems.
use serpe.Base.{
  total, contains, ℕ, ◌+◌, ◌≤◌, true, false, ◌≡◌, refl, none, List, [], ◌∷◌, Bytes, bytes_eq,
  bytes_beq, codes, length, take, ltb, if◌then◌else◌, Assoc, lookup, has, ◌&&◌, bytes_ltb, IsUnique,
}
use serpe.Sessions.Page.{last_id}
use serpe.Sessions.Page.Smallest.{IsIncreasing}
use serpe.Sessions.{invalid}
use serpe.Sessions.Memory.{MemoryStore, ok, list_ids_page}
use serpe.Sessions.Memory.Listed.{ids_behind, list_ids_page-smallest}
use serpe.Sessions.Memory.Refines.{
  names_invalid, refused, create_request, serve, promised, view, Agree, serve-Agree,
}
use serpe.Sessions.DrainClose.{
  Gate, new_drain_close, outside, inside, refused, waiting, enter, begin_close, enters, closes,
  Reached, initial, next,
}
use serpe.Sessions.DrainClose.Totals.{is_inside, is_running, is_some_err}
use serpe.Sessions.DrainClose.Drained.{Reached-closes_alone}
use serpe.Sessions.DrainClose.Totals.{AllReturned}

abbrev id : ℕ → Bytes
id c = c ∷ []

abbrev entries : Assoc Bytes Bytes
entries =
    (id b'b', codes "2") ∷ (id b'd', codes "4") ∷ (id b'a', codes "1") ∷ (id b'c', codes "3") ∷ []

abbrev store : MemoryStore
store = record { saved = entries; closed = false }

abbrev page : List Bytes
page = id b'b' ∷ id b'c' ∷ []

entries-IsUnique : IsUnique entries
unfolding lookup bytes_beq
entries-IsUnique = (refl, (refl, (refl, (refl, tt))))

page_listed : list_ids_page false (λ n. false) (id b'a') 2 store ≡ ok (page, id b'c')
unfolding list_ids_page bytes_beq
page_listed = refl

list_ids_page-smallest_example :
    (page ≡ take 2 (ids_behind (id b'a') [] entries))
    × (id b'c' ≡ (if ltb 2 (length (ids_behind (id b'a') [] entries)) then last_id page else []))
    × IsIncreasing (ids_behind (id b'a') [] entries)
    × ((k : Bytes)
        → contains k (ids_behind (id b'a') [] entries) ≡ (has k entries && bytes_ltb (id b'a') k))
list_ids_page-smallest_example =
    list_ids_page-smallest false (λ n. false) (id b'a') 2 store page (id b'c') entries-IsUnique
      page_listed

-- A second record under one ID.
serve-Agree_example : Agree (serve false (create_request (id b'b') (codes "9")) store) (
    if store.closed && names_invalid (create_request (id b'b') (codes "9"))
    then (view store, refused invalid)
    else promised false (create_request (id b'b') (codes "9")) (view store))
serve-Agree_example = serve-Agree false (create_request (id b'b') (codes "9")) store

-- An operation is let in, a closer waits for it, and a second operation is refused.
abbrev busy : Gate ℕ
busy = record {
  drain = record { active = 1; closing = true; close_err = none };
  threads = inside ∷ waiting ∷ refused ∷ [];
}

busy-Reached : Reached busy
unfolding enter begin_close
busy-Reached =
    next
      (next (next (initial 3) (enters new_drain_close [] (outside ∷ outside ∷ []))) (
        closes (record { active = 1; closing = false; close_err = none }) (inside ∷ [])
          (outside ∷ [])))
      (enters (record { active = 1; closing = true; close_err = none }) (inside ∷ waiting ∷ []) [])

Reached-closes_alone_example :
    (total is_running busy.threads + is_some_err busy.drain.close_err ≤ 1)
    × (1 ≤ total is_running busy.threads + is_some_err busy.drain.close_err
        → total is_inside busy.threads ≡ 0)
    × AllReturned busy.drain.close_err busy.threads
Reached-closes_alone_example = Reached-closes_alone busy busy-Reached
