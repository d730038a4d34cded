-- ===== src/Sessions/Locks/Turns.antt =====
-- What every interleaving of calls of `acquireTwo` in runtime/sessions/manager.go keeps.
use serpe.Base.{
  ℕ, ◌+◌, ◌≡◌, refl, sym, subst, inl, inr, some, List, [], ◌∷◌, ◌++◌, ◌==◌, nat_eq, ◌∙◌, Bytes,
  bytes_eq, bytes_ltb, Assoc, lookup, Bool-cases, arith, All, All-middle, All-replaced, total,
}
use mathlib.Core.List.{append_assoc}
use serpe.Sessions.Locks.{
  Manager, new_locks, release_ref, Thread, outside, gone, waiting, holding, leaving,
}
use serpe.Sessions.Locks.Exclusive.{bit, is_on, is_holding, Knows, IsExclusive}
use serpe.Sessions.Locks.Asked.{asks-IsExclusive}
use serpe.Sessions.Locks.Steps.{takes-IsExclusive, gives_back-IsExclusive, release-IsExclusive}
use serpe.Sessions.Locks.Two.{
  Pair, pair, acquire_two, Turn, asks_first, takes_first, asks_second, takes_second,
  gives_back_second, leaves_second, gives_back_first, leaves_first, Cancelled, cancels_first,
  cancels_second, acquire_all, PairsReached, asked, turned, cancelled,
}
use serpe.Sessions.Locks.Shape.{IsShaped, Turn-IsShaped, Cancelled-IsShaped, acquire_two-IsShaped}

-- The threads of the calls.
abbrev pub threads : List Pair → List Thread
threads [] = []
threads (p ∷ ps) = p.on_first ∷ p.on_second ∷ threads ps

threads-middle :
    (before after : List Pair) (p : Pair)
    → threads (before ++ p ∷ after) ≡ threads before ++ p.on_first ∷ p.on_second ∷ threads after
threads-middle [] after p = refl
threads-middle (b ∷ before) after p = rw (threads-middle before after p) refl

-- One thread of one call takes a step of Sessions/Locks.
module _ (before after : List Pair) where
  abbrev Kept : Manager → Pair → Type 0
  Kept m p = IsExclusive m (threads (before ++ p ∷ after))

  on_first :
      {m m' : Manager} (x y : Bytes) (t t' u : Thread)
      → ((b a : List Thread) → IsExclusive m (b ++ t ∷ a) → IsExclusive m' (b ++ t' ∷ a))
      → Kept m (pair x y t u)
      → Kept m' (pair x y t' u)
  on_first {m} {m'} x y t t' u step kept =
      subst (IsExclusive m') (sym (threads-middle before after (pair x y t' u))) (
        step (threads before) (u ∷ threads after)
          (subst (IsExclusive m) (threads-middle before after (pair x y t u)) kept))

  on_second :
      {m m' : Manager} (x y : Bytes) (t u u' : Thread)
      → ((b a : List Thread) → IsExclusive m (b ++ u ∷ a) → IsExclusive m' (b ++ u' ∷ a))
      → Kept m (pair x y t u)
      → Kept m' (pair x y t u')
  on_second {m} {m'} x y t u u' step kept =
      subst (IsExclusive m') (sym (split u'))
        (step (threads before ++ t ∷ []) (threads after) (subst (IsExclusive m) (split u) kept))
    where
      split :
          (v : Thread)
          → threads (before ++ pair x y t v ∷ after)
            ≡ (threads before ++ t ∷ []) ++ v ∷ threads after
      split v = threads-middle before after (pair x y t v) ∙ rw append_assoc refl

  -- The address that a thread of the call keeps.
  known_first : {m : Manager} (p : Pair) → Kept m p → Knows m.locks p.on_first
  known_first {m} p kept =
      All-middle (Knows m.locks) (threads before) p.on_first (p.on_second ∷ threads after)
        (subst (All (Knows m.locks)) (threads-middle before after p) kept.known)

  known_second : {m : Manager} (p : Pair) → Kept m p → Knows m.locks p.on_second
  known_second {m} p kept =
      All-middle (Knows m.locks) (threads before ++ p.on_first ∷ []) p.on_second (threads after) (
        subst (All (Knows m.locks)) (threads-middle before after p ∙ rw append_assoc refl)
          kept.known)

  -- A thread that holds no token gives its reference back.
  gone_first :
      {m : Manager} (x y i : Bytes) (a : ℕ) (t u : Thread)
      → (Knows m.locks t → lookup i m.locks ≡ some a)
      → ((k : Bytes) → is_on k t ≡ bit (i == k))
      → ((k : Bytes) → is_holding k t ≡ 0)
      → Kept m (pair x y t u)
      → Kept (release_ref i a m) (pair x y gone u)
  gone_first {m} x y i a t u mapped on empty_handed kept =
      on_first x y t gone u
        (λ b c.
          release-IsExclusive m b c i a t (mapped (known_first (pair x y t u) kept)) on
            empty_handed)
        kept

  gone_second :
      {m : Manager} (x y i : Bytes) (a : ℕ) (t u : Thread)
      → (Knows m.locks u → lookup i m.locks ≡ some a)
      → ((k : Bytes) → is_on k u ≡ bit (i == k))
      → ((k : Bytes) → is_holding k u ≡ 0)
      → Kept m (pair x y t u)
      → Kept (release_ref i a m) (pair x y t gone)
  gone_second {m} x y i a t u mapped on empty_handed kept =
      on_second x y t u gone
        (λ b c.
          release-IsExclusive m b c i a u (mapped (known_second (pair x y t u) kept)) on
            empty_handed)
        kept

  Turn-IsExclusive : {m m' : Manager} {p q : Pair} → Turn m p m' q → Kept m p → Kept m' q
  Turn-IsExclusive (asks_first m x y u) kept =
      on_first x y outside _ u (λ b a. asks-IsExclusive m b a x) kept
  Turn-IsExclusive (takes_first m x y i a u there) kept =
      on_first x y (waiting i a) (holding i a) u
        (λ b c. takes-IsExclusive m b c i a (known_first (pair x y (waiting i a) u) kept) there)
        kept
  Turn-IsExclusive (asks_second m x y i a) kept =
      on_second x y (holding i a) outside _ (λ b a. asks-IsExclusive m b a y) kept
  Turn-IsExclusive (takes_second m x y i j a b there) kept =
      on_second x y (holding i a) (waiting j b) (holding j b)
        (λ c d.
          takes-IsExclusive m c d j b (known_second (pair x y (holding i a) (waiting j b)) kept)
            there)
        kept
  Turn-IsExclusive (gives_back_second m x y i j a b) kept =
      on_second x y (holding i a) (holding j b) (leaving j b)
        (λ c d.
          gives_back-IsExclusive m c d j b
            (known_second (pair x y (holding i a) (holding j b)) kept))
        kept
  Turn-IsExclusive (leaves_second m x y i j a b) kept =
      gone_second x y j b (holding i a) (leaving j b) (λ h. h) (λ k. refl) (λ k. refl) kept
  Turn-IsExclusive (gives_back_first m x y i a) kept =
      on_first x y (holding i a) (leaving i a) gone
        (λ c d. gives_back-IsExclusive m c d i a (known_first (pair x y (holding i a) gone) kept))
        kept
  Turn-IsExclusive (leaves_first m x y i a) kept =
      gone_first x y i a (leaving i a) gone (λ h. h) (λ k. refl) (λ k. refl) kept

  Cancelled-IsExclusive : {m m' : Manager} {p q : Pair} → Cancelled m p m' q → Kept m p → Kept m' q
  Cancelled-IsExclusive (cancels_first m x y i a u) kept =
      gone_first x y i a (waiting i a) u (λ h. h) (λ k. refl) (λ k. refl) kept
  Cancelled-IsExclusive (cancels_second m x y i j a b) kept =
      gone_second x y j b (holding i a) (waiting j b) (λ h. h) (λ k. refl) (λ k. refl) kept

-- No thread of a new call is on a lock.
abbrev IsNew : Pair → Type 0
IsNew p =
    (on : Thread → ℕ) (locks : Assoc Bytes ℕ)
    → on outside ≡ 0
    → on gone ≡ 0
    → (on p.on_first + on p.on_second ≡ 0) × Knows locks p.on_first × Knows locks p.on_second

acquire_two-IsNew : (x y : Bytes) → IsNew (acquire_two x y)
unfolding acquire_two
acquire_two-IsNew x y on locks out end = elim (Bool-cases (x == y)) [
  | inl same ↦ rw (same, acquire_two) (omega (arith, out, end), tt, tt)
  | inr other ↦ elim (Bool-cases (bytes_ltb y x)) [
    | inl swapped ↦ rw (other, swapped, acquire_two) (omega (arith, out), tt, tt)
    | inr sorted ↦ rw (other, sorted, acquire_two) (omega (arith, out), tt, tt)
  ]
]

new-total :
    (on : Thread → ℕ) (ids : List (Bytes × Bytes))
    → on outside ≡ 0
    → on gone ≡ 0
    → total on (threads (acquire_all ids)) ≡ 0
new-total on [] out end = refl
new-total on ((x, y) ∷ ids) out end =
    omega (arith, (acquire_two-IsNew x y on [] out end).0, new-total on ids out end)

new-Knows : (ids : List (Bytes × Bytes)) → All (Knows []) (threads (acquire_all ids))
new-Knows [] = tt
new-Knows ((x, y) ∷ ids) =
    let (none_on, first, second) = acquire_two-IsNew x y (λ t. 0) [] refl refl in
    (first, (second, new-Knows ids))

-- What every interleaving of calls keeps.
pub record IsOrderly (m : Manager) (ps : List Pair) : Type 0 where
  pub exclusive : IsExclusive m (threads ps)
  pub shaped : All IsShaped ps

asked-IsOrderly : (ids : List (Bytes × Bytes)) → IsOrderly new_locks (acquire_all ids)
unfolding lookup
asked-IsOrderly ids = record {
  exclusive = record {
    fits = λ k. (new-total (is_on k) ids refl refl, new-total (is_holding k) ids refl refl);
    known = new-Knows ids;
    single = λ i j a left right. absurd (cc (left));
    used = λ k a known. absurd (cc (known));
  };
  shaped = all_shaped ids;
}
  where
    all_shaped : (ids : List (Bytes × Bytes)) → All IsShaped (acquire_all ids)
    all_shaped [] = tt
    all_shaped ((x, y) ∷ ids) = (acquire_two-IsShaped x y, all_shaped ids)

pub PairsReached-IsOrderly : (m : Manager) (ps : List Pair) → PairsReached m ps → IsOrderly m ps
PairsReached-IsOrderly _ _ (asked ids) = asked-IsOrderly ids
PairsReached-IsOrderly _ _ (turned {m} {m'} {p} {q} before after r turn) =
    let orderly = PairsReached-IsOrderly m (before ++ p ∷ after) r in
    record {
      exclusive = Turn-IsExclusive before after turn orderly.exclusive;
      shaped =
          All-replaced IsShaped before after p q
            (Turn-IsShaped turn (All-middle IsShaped before p after orderly.shaped)) orderly.shaped;
    }
PairsReached-IsOrderly _ _ (cancelled {m} {m'} {p} {q} before after r cancel) =
    let orderly = PairsReached-IsOrderly m (before ++ p ∷ after) r in
    record {
      exclusive = Cancelled-IsExclusive before after cancel orderly.exclusive;
      shaped =
          All-replaced IsShaped before after p q
            (Cancelled-IsShaped cancel (All-middle IsShaped before p after orderly.shaped))
            orderly.shaped;
    }
