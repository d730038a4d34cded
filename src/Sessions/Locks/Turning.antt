-- ===== src/Sessions/Locks/Turning.antt =====
-- When a call of `acquireTwo` in runtime/sessions/manager.go has a step to take.
use serpe.Base.{
  ℕ, suc, ◌+◌, ◌≤◌, ◌≡◌, refl, subst, ◌∙◌, ◌⊎◌, inl, inr, true, false, Option, none, some, nat_eq,
  ==_iff, Bytes, bytes_eq, bytes_ltb, Assoc, lookup, Option-cases, arith,
}
use serpe.Sessions.Locks.{Manager, Thread, outside, gone, waiting, holding, leaving}
use serpe.Sessions.Locks.Exclusive.{is_holding, Knows}
use serpe.Sessions.Locks.Two.{
  Pair, pair, Turn, takes_first, asks_second, takes_second, gives_back_second, leaves_second,
  gives_back_first, leaves_first, is_inside,
}
use serpe.Sessions.Locks.Shape.{Fit}

-- The steps that a thread has left, and a call: both locks are asked for, taken, given back and left.
abbrev left : Thread → ℕ
left outside = 4
left (waiting i a) = 3
left (holding i a) = 2
left (leaving i a) = 1
left gone = 0

abbrev pub steps_left : Pair → ℕ
steps_left p = left p.on_first + left p.on_second

-- A call that is inside and has a step to take, after which it has one less to take.
pub record GoesOn (m : Manager) (p : Pair) : Type 0 where
  pub inside : is_inside p ≡ true
  pub manager : Manager
  pub later : Pair
  pub turn : Turn m p manager later
  pub nearer : suc (steps_left later) ≡ steps_left p

abbrev goes :
    {m m' : Manager} {p q : Pair}
    → is_inside p ≡ true
    → Turn m p m' q
    → suc (steps_left q) ≡ steps_left p
    → GoesOn m p
goes {m} {m'} {p} {q} inside turn nearer = record {
  inside = inside;
  manager = m';
  later = q;
  turn = turn;
  nearer = nearer;
}

-- The ID that a thread waits for, and a call.
abbrev awaited : Thread → Option Bytes
awaited (waiting i a) = some i
awaited _ = none

abbrev pub awaited_by : Pair → Option Bytes
awaited_by p = elim (awaited p.on_first) [ none ↦ awaited p.on_second | some i ↦ some i ]

holding-GoesOn :
    (m : Manager) (x y i : Bytes) (a : ℕ) (u : Thread)
    → awaited u ≡ none
    → GoesOn m (pair x y (holding i a) u)
holding-GoesOn m x y i a outside h = goes refl (asks_second m x y i a) refl
holding-GoesOn m x y i a (waiting j b) h = absurd (cc (h))
holding-GoesOn m x y i a (holding j b) h = goes refl (gives_back_second m x y i j a b) refl
holding-GoesOn m x y i a (leaving j b) h = goes refl (leaves_second m x y i j a b) refl
holding-GoesOn m x y i a gone h = goes refl (gives_back_first m x y i a) refl

-- A call that waits for nothing goes on.
pub busy-GoesOn :
    (m : Manager) (x y : Bytes) (t u : Thread)
    → Fit y t u
    → is_inside (pair x y t u) ≡ true
    → awaited_by (pair x y t u) ≡ none
    → GoesOn m (pair x y t u)
busy-GoesOn m x y outside u fit inside h = absurd (cc (inside))
busy-GoesOn m x y gone u fit inside h = absurd (cc (inside))
busy-GoesOn m x y (waiting i a) u fit inside h = absurd (cc (h))
busy-GoesOn m x y (holding i a) u fit inside h = holding-GoesOn m x y i a u h
busy-GoesOn m x y (leaving i a) outside fit inside h = absurd fit
busy-GoesOn m x y (leaving i a) (waiting j b) fit inside h = absurd fit
busy-GoesOn m x y (leaving i a) (holding j b) fit inside h = absurd fit
busy-GoesOn m x y (leaving i a) (leaving j b) fit inside h = absurd fit
busy-GoesOn m x y (leaving i a) gone fit inside h = goes refl (leaves_first m x y i a) refl

-- The second lock is held or awaited only while the first is held.
only_under :
    (y k : Bytes) (t u : Thread)
    → Fit y t u
    → ((awaited u ≡ some k) ⊎ (1 ≤ is_holding k u))
    → (i : Bytes) × (a : ℕ) × (t ≡ holding i a)
only_under y k t outside fit (inl h) = absurd (cc (h))
only_under y k t outside fit (inr h) = absurd (omega (arith, h))
only_under y k t gone fit (inl h) = absurd (cc (h))
only_under y k t gone fit (inr h) = absurd (omega (arith, h))
only_under y k (holding i a) u fit h = (i, a, refl)
only_under y k outside (waiting j b) fit h = absurd fit
only_under y k outside (holding j b) fit h = absurd fit
only_under y k outside (leaving j b) fit h = absurd fit
only_under y k gone (waiting j b) fit h = absurd fit
only_under y k gone (holding j b) fit h = absurd fit
only_under y k gone (leaving j b) fit h = absurd fit
only_under y k (waiting i a) (waiting j b) fit h = absurd fit
only_under y k (waiting i a) (holding j b) fit h = absurd fit
only_under y k (waiting i a) (leaving j b) fit h = absurd fit
only_under y k (leaving i a) (waiting j b) fit h = absurd fit
only_under y k (leaving i a) (holding j b) fit h = absurd fit
only_under y k (leaving i a) (leaving j b) fit h = absurd fit

-- A call that has a lock goes on, unless it waits for one with a larger ID.
pub holder-GoesOn :
    (m : Manager) (x y k : Bytes) (t u : Thread)
    → Fit y t u
    → 1 ≤ is_holding k t + is_holding k u
    → ((j : Bytes) → awaited_by (pair x y t u) ≡ some j → bytes_ltb k j ≡ false)
    → GoesOn m (pair x y t u)
holder-GoesOn m x y k (holding i a) outside fit held below = holding-GoesOn m x y i a outside refl
holder-GoesOn m x y k (holding i a) (waiting j b) fit held below =
    let same : i ≡ k = ground (arith, held, ==_iff i k) in absurd (cc (below j refl, fit, same))
holder-GoesOn m x y k (holding i a) (holding j b) fit held below =
    holding-GoesOn m x y i a (holding j b) refl
holder-GoesOn m x y k (holding i a) (leaving j b) fit held below =
    holding-GoesOn m x y i a (leaving j b) refl
holder-GoesOn m x y k (holding i a) gone fit held below = holding-GoesOn m x y i a gone refl
holder-GoesOn m x y k outside u fit held below =
    let (i, a, e) = only_under y k outside u fit (inr (omega (arith, held))) in absurd (cc (e))
holder-GoesOn m x y k gone u fit held below =
    let (i, a, e) = only_under y k gone u fit (inr (omega (arith, held))) in absurd (cc (e))
holder-GoesOn m x y k (waiting j b) u fit held below =
    let (i, a, e) = only_under y k (waiting j b) u fit (inr (omega (arith, held))) in
    absurd (cc (e))
holder-GoesOn m x y k (leaving j b) u fit held below =
    let (i, a, e) = only_under y k (leaving j b) u fit (inr (omega (arith, held))) in
    absurd (cc (e))

-- The lock that a thread waits for is in the map.
thread_lock :
    (locks : Assoc Bytes ℕ) (k : Bytes) (t : Thread)
    → awaited t ≡ some k
    → Knows locks t
    → (a : ℕ) × (lookup k locks ≡ some a)
thread_lock locks k outside h knows = absurd (cc (h))
thread_lock locks k gone h knows = absurd (cc (h))
thread_lock locks k (waiting i a) h knows =
    let same : i ≡ k = cc (h) in (a, subst (λ j. lookup j locks ≡ some a) same knows)
thread_lock locks k (holding i a) h knows = absurd (cc (h))
thread_lock locks k (leaving i a) h knows = absurd (cc (h))

pub awaited_lock :
    (locks : Assoc Bytes ℕ) (k : Bytes) (p : Pair)
    → awaited_by p ≡ some k
    → Knows locks p.on_first × Knows locks p.on_second
    → (a : ℕ) × (lookup k locks ≡ some a)
awaited_lock locks k p h knows = elim (Option-cases (awaited p.on_first)) [
  | inl idle ↦ thread_lock locks k p.on_second (rw (idle, awaited_by) at h) knows.1
  | inr (i, waits) ↦ thread_lock locks k p.on_first (waits ∙ rw (waits, awaited_by) at h) knows.0
]

-- A call goes on when the token of the lock that it waits for is there.
pub waiter-GoesOn :
    (m : Manager) (x y k : Bytes) (t u : Thread)
    → Fit y t u
    → awaited_by (pair x y t u) ≡ some k
    → Knows m.locks t × Knows m.locks u
    → ((a : ℕ) → lookup k m.locks ≡ some a → (m.heap a).token ≡ true)
    → GoesOn m (pair x y t u)
waiter-GoesOn m x y k (waiting i a) u fit h knows there =
    let same : i ≡ k = cc (h) in
    goes refl
      (takes_first m x y i a u (there a (subst (λ j. lookup j m.locks ≡ some a) same knows.0)))
      (omega arith)
waiter-GoesOn m x y k (holding i a) outside fit h knows there = absurd (cc (h))
waiter-GoesOn m x y k (holding i a) (waiting j b) fit h knows there =
    let same : j ≡ k = cc (h) in
    goes refl
      (takes_second m x y i j a b (there b (subst (λ l. lookup l m.locks ≡ some b) same knows.1)))
      refl
waiter-GoesOn m x y k (holding i a) (holding j b) fit h knows there = absurd (cc (h))
waiter-GoesOn m x y k (holding i a) (leaving j b) fit h knows there = absurd (cc (h))
waiter-GoesOn m x y k (holding i a) gone fit h knows there = absurd (cc (h))
waiter-GoesOn m x y k outside u fit h knows there =
    let (i, a, e) = only_under y k outside u fit (inl h) in absurd (cc (e))
waiter-GoesOn m x y k gone u fit h knows there =
    let (i, a, e) = only_under y k gone u fit (inl h) in absurd (cc (e))
waiter-GoesOn m x y k (leaving j b) u fit h knows there =
    let (i, a, e) = only_under y k (leaving j b) u fit (inl h) in absurd (cc (e))
