-- ===== src/Sessions/Locks/Shape.antt =====
-- The order in which a call of `acquireTwo` of runtime/sessions/manager.go touches its locks.
use serpe.Base.{
  ◌≡◌, inl, inr, true, ◌==◌, nat_eq, ==_iff, Bytes, bytes_eq, bytes_ltb, bytes_ltb_total,
  Bool-cases,
}
use serpe.Sessions.Locks.{Manager, Thread, outside, gone, waiting, holding, leaving}
use serpe.Sessions.Locks.Two.{
  Pair, acquire_two, Turn, asks_first, takes_first, asks_second, takes_second, gives_back_second,
  leaves_second, gives_back_first, leaves_first, Cancelled, cancels_first, cancels_second,
}

-- The threads of a call: a second lock is touched only under the first, and has the larger ID.
abbrev pub Fit : Bytes → Thread → Thread → Type 0
Fit y outside outside = Unit
Fit y outside gone = Unit
Fit y (waiting i a) outside = bytes_ltb i y ≡ true
Fit y (waiting i a) gone = Unit
Fit y (holding i a) outside = bytes_ltb i y ≡ true
Fit y (holding i a) (waiting j b) = bytes_ltb i j ≡ true
Fit y (holding i a) (holding j b) = Unit
Fit y (holding i a) (leaving j b) = Unit
Fit y (holding i a) gone = Unit
Fit y (leaving i a) gone = Unit
Fit y gone outside = Unit
Fit y gone gone = Unit
Fit y _ _ = ⊥

-- A call that has not begun yet has its IDs in order.
abbrev Sorted : Bytes → Bytes → Thread → Thread → Type 0
Sorted x y outside outside = bytes_ltb x y ≡ true
Sorted x y _ _ = Unit

abbrev pub IsShaped : Pair → Type 0
IsShaped p = Fit p.second p.on_first p.on_second × Sorted p.first p.second p.on_first p.on_second

pub Turn-IsShaped : {m m' : Manager} {p q : Pair} → Turn m p m' q → IsShaped p → IsShaped q
Turn-IsShaped (asks_first m x y outside) s = (s.1, tt)
Turn-IsShaped (asks_first m x y gone) s = (tt, tt)
Turn-IsShaped (asks_first m x y (waiting i a)) s = absurd s.0
Turn-IsShaped (asks_first m x y (holding i a)) s = absurd s.0
Turn-IsShaped (asks_first m x y (leaving i a)) s = absurd s.0
Turn-IsShaped (takes_first m x y i a outside there) s = (s.0, tt)
Turn-IsShaped (takes_first m x y i a gone there) s = (tt, tt)
Turn-IsShaped (takes_first m x y i a (waiting j b) there) s = absurd s.0
Turn-IsShaped (takes_first m x y i a (holding j b) there) s = absurd s.0
Turn-IsShaped (takes_first m x y i a (leaving j b) there) s = absurd s.0
Turn-IsShaped (asks_second m x y i a) s = (s.0, tt)
Turn-IsShaped (takes_second m x y i j a b there) s = (tt, tt)
Turn-IsShaped (gives_back_second m x y i j a b) s = (tt, tt)
Turn-IsShaped (leaves_second m x y i j a b) s = (tt, tt)
Turn-IsShaped (gives_back_first m x y i a) s = (tt, tt)
Turn-IsShaped (leaves_first m x y i a) s = (tt, tt)

pub Cancelled-IsShaped :
    {m m' : Manager} {p q : Pair} → Cancelled m p m' q → IsShaped p → IsShaped q
Cancelled-IsShaped (cancels_first m x y i a outside) s = (tt, tt)
Cancelled-IsShaped (cancels_first m x y i a gone) s = (tt, tt)
Cancelled-IsShaped (cancels_first m x y i a (waiting j b)) s = absurd s.0
Cancelled-IsShaped (cancels_first m x y i a (holding j b)) s = absurd s.0
Cancelled-IsShaped (cancels_first m x y i a (leaving j b)) s = absurd s.0
Cancelled-IsShaped (cancels_second m x y i j a b) s = (tt, tt)

pub acquire_two-IsShaped : (x y : Bytes) → IsShaped (acquire_two x y)
unfolding acquire_two
acquire_two-IsShaped x y = elim (Bool-cases (x == y)) [
  | inl same ↦ rw (same, acquire_two) (tt, tt)
  | inr other ↦ elim (Bool-cases (bytes_ltb y x)) [
    | inl swapped ↦ rw (other, swapped, acquire_two) (tt, swapped)
    | inr sorted ↦ elim (Bool-cases (bytes_ltb x y)) [
      | inl less ↦ rw (other, sorted, acquire_two) (tt, less)
      | inr neither ↦ absurd (cc (other, (==_iff x y).1 (bytes_ltb_total x y neither sorted)))
    ]
  ]
]
