-- ===== src/Sessions/Locks/Two.antt =====
-- `acquireTwo` of runtime/sessions/manager.go: the locks of two session IDs, the smaller ID first. A call
-- of it is a pair of threads, one for each lock, of which the second moves only while the first holds.
use serpe.Base.{
  ℕ, ◌≡◌, Bool, true, false, List, [], ◌∷◌, ◌++◌, ◌==◌, nat_eq, if◌then◌else◌, Bytes, bytes_eq,
  bytes_ltb,
}
use serpe.Sessions.Locks.{
  Manager, add_ref, set_token, release_ref, new_locks, Thread, outside, gone, waiting, holding,
  leaving,
}

-- The IDs in the order of the code, and what the call has of the lock of each.
pub record Pair : Type 0 where
  pub first : Bytes
  pub second : Bytes
  pub on_first : Thread
  pub on_second : Thread

abbrev pub pair : Bytes → Bytes → Thread → Thread → Pair
pair first second on_first on_second = record {
  first = first;
  second = second;
  on_first = on_first;
  on_second = on_second;
}

-- A call of `acquireTwo`. For one ID twice it is `acquire`, and there is no second lock.
unfoldable pub acquire_two : Bytes → Bytes → Pair
unfolding bytes_ltb
acquire_two first second =
    if first == second
    then pair first second outside gone
    else if bytes_ltb second first
    then pair second first outside outside
    else pair first second outside outside

-- A step that a call takes while its context is not done: first the locks in their order, then what the
-- returned function does, the locks in the opposite order.
pub data Turn : Manager → Pair → Manager → Pair → Type 0 where
  asks_first :
      (m : Manager) (x y : Bytes) (u : Thread)
      → Turn m (pair x y outside u) (add_ref x m).0 (pair x y (waiting x (add_ref x m).1) u)
  takes_first :
      (m : Manager) (x y i : Bytes) (a : ℕ) (u : Thread)
      → (m.heap a).token ≡ true
      → Turn m (pair x y (waiting i a) u) (set_token false a m) (pair x y (holding i a) u)
  asks_second :
      (m : Manager) (x y i : Bytes) (a : ℕ)
      → Turn m
          (pair x y (holding i a) outside)
          (add_ref y m).0
          (pair x y (holding i a) (waiting y (add_ref y m).1))
  takes_second :
      (m : Manager) (x y i j : Bytes) (a b : ℕ)
      → (m.heap b).token ≡ true
      → Turn m
          (pair x y (holding i a) (waiting j b))
          (set_token false b m)
          (pair x y (holding i a) (holding j b))
  gives_back_second :
      (m : Manager) (x y i j : Bytes) (a b : ℕ)
      → Turn m
          (pair x y (holding i a) (holding j b))
          (set_token true b m)
          (pair x y (holding i a) (leaving j b))
  leaves_second :
      (m : Manager) (x y i j : Bytes) (a b : ℕ)
      → Turn m
          (pair x y (holding i a) (leaving j b))
          (release_ref j b m)
          (pair x y (holding i a) gone)
  gives_back_first :
      (m : Manager) (x y i : Bytes) (a : ℕ)
      → Turn m (pair x y (holding i a) gone) (set_token true a m) (pair x y (leaving i a) gone)
  leaves_first :
      (m : Manager) (x y i : Bytes) (a : ℕ)
      → Turn m (pair x y (leaving i a) gone) (release_ref i a m) (pair x y gone gone)

-- A step that a call takes when its context is done: it fails, and gives back what it has.
pub data Cancelled : Manager → Pair → Manager → Pair → Type 0 where
  cancels_first :
      (m : Manager) (x y i : Bytes) (a : ℕ) (u : Thread)
      → Cancelled m (pair x y (waiting i a) u) (release_ref i a m) (pair x y gone u)
  cancels_second :
      (m : Manager) (x y i j : Bytes) (a b : ℕ)
      → Cancelled m
          (pair x y (holding i a) (waiting j b))
          (release_ref j b m)
          (pair x y (holding i a) gone)

-- The calls asked for, two IDs each.
abbrev pub acquire_all : List (Bytes × Bytes) → List Pair
acquire_all [] = []
acquire_all ((x, y) ∷ asked) = acquire_two x y ∷ acquire_all asked

-- What any interleaving of calls comes to.
pub data PairsReached : Manager → List Pair → Type 0 where
  asked : (ids : List (Bytes × Bytes)) → PairsReached new_locks (acquire_all ids)
  turned :
      {m m' : Manager} {p q : Pair} (before after : List Pair)
      → PairsReached m (before ++ p ∷ after)
      → Turn m p m' q
      → PairsReached m' (before ++ q ∷ after)
  cancelled :
      {m m' : Manager} {p q : Pair} (before after : List Pair)
      → PairsReached m (before ++ p ∷ after)
      → Cancelled m p m' q
      → PairsReached m' (before ++ q ∷ after)

-- A call that has asked for its first lock, and has not given it back.
abbrev pub is_inside : Pair → Bool
is_inside p = elim p.on_first [
  | outside ↦ false
  | gone ↦ false
  | waiting i a ↦ true
  | holding i a ↦ true
  | leaving i a ↦ true
]
