-- ===== src/Examples/Locks.antt =====
-- Callers of runtime/sessions/manager.go that ask for the locks of one ID and of two.
use serpe.Base.{
  some, ◌⊎◌, All, Any, inl, total, ℕ, ◌+◌, false, ◌≡◌, refl, none, List, [], ◌∷◌, Bytes, bytes_eq,
  bytes_beq, bytes_ltb, lookup,
}
use serpe.Sessions.Locks.{
  Manager, Callers, Thread, outside, waiting, holding, Reached, initial, next, set_token, add_ref,
  new_locks, asks, takes,
}
use serpe.Sessions.Locks.Exclusive.{bit, is_on, is_holding, Knows}
use serpe.Sessions.Locks.Held.{Reached-held_once}
use serpe.Sessions.Locks.Two.{
  Pair, pair, acquire_two, PairsReached, asked, turned, asks_first, takes_first,
}
use serpe.Sessions.Locks.Turning.{GoesOn}
use serpe.Sessions.Locks.Progress.{no_deadlock}

abbrev id : ℕ → Bytes
id c = c ∷ []

-- Two callers of one ID: the first holds it, the second waits.
abbrev one_asked : Manager
one_asked = (add_ref (id b'a') new_locks).0

abbrev two_asked : Manager
two_asked = (add_ref (id b'a') one_asked).0

abbrev held : Callers
held = record {
  manager = set_token false 0 two_asked;
  threads = holding (id b'a') 0 ∷ waiting (id b'a') 0 ∷ [];
}

held-Reached : Reached held
unfolding add_ref lookup bytes_beq
held-Reached =
    next
      (next (next (initial 2) (asks new_locks [] (outside ∷ []) (id b'a')))
        (asks one_asked (waiting (id b'a') 0 ∷ []) [] (id b'a')))
      (takes two_asked [] (waiting (id b'a') 0 ∷ []) (id b'a') 0 refl)

Reached-held_once_example :
    ((total (is_on (id b'a')) held.threads ≡ 0) × (lookup (id b'a') held.manager.locks ≡ none))
    ⊎ ((a : ℕ) × (lookup (id b'a') held.manager.locks ≡ some a)
        × (total (is_holding (id b'a')) held.threads + bit (held.manager.heap a).token ≡ 1)
        × ((held.manager.heap a).refs ≡ total (is_on (id b'a')) held.threads)
        × All (Knows held.manager.locks) held.threads)
Reached-held_once_example = Reached-held_once held (id b'a') held-Reached

-- Two calls for the same two IDs, asked for in different orders: the first has the lock of the smaller
-- ID, and the second waits for it.
abbrev crossed_ids : List (Bytes × Bytes)
crossed_ids = (id b'a', id b'b') ∷ (id b'b', id b'a') ∷ []

abbrev crossed : Thread → Thread → List Pair
crossed t u = pair (id b'a') (id b'b') t outside ∷ pair (id b'a') (id b'b') u outside ∷ []

crossed-Reached :
    PairsReached (set_token false 0 two_asked) (crossed (holding (id b'a') 0) (waiting (id b'a') 0))
unfolding acquire_two bytes_ltb bytes_beq add_ref lookup
crossed-Reached =
    let second = pair (id b'a') (id b'b') outside outside in
    let waiting_second = pair (id b'a') (id b'b') (waiting (id b'a') 0) outside in
    turned [] (waiting_second ∷ [])
      (turned (waiting_second ∷ []) []
        (turned [] (second ∷ []) (asked crossed_ids)
          (asks_first new_locks (id b'a') (id b'b') outside))
        (asks_first one_asked (id b'a') (id b'b') outside))
      (takes_first two_asked (id b'a') (id b'b') (id b'a') 0 outside refl)

no_deadlock_example :
    Any (GoesOn (set_token false 0 two_asked)) (crossed (holding (id b'a') 0) (waiting (id b'a') 0))
no_deadlock_example = no_deadlock (set_token false 0 two_asked) _ crossed-Reached (inl refl)
