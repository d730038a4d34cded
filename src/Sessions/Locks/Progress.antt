-- ===== src/Sessions/Locks/Progress.antt =====
-- The calls of `acquireTwo` in runtime/sessions/manager.go never wait for each other in a circle.
use serpe.Base.{
  ℕ, ◌+◌, ◌≤◌, ◌≡◌, subst, ap, ◌⊎◌, inl, inr, true, false, none, some, List, [], ◌∷◌, nat_eq, Bytes,
  bytes_eq, bytes_ltb, bytes_le_lt_trans, bytes_ltb_irrefl, bytes_ltb_asym, All-map, All-both,
  Assoc, Bool-cases, Option-cases, arith, All, Any, Any-elim, Any-map, total,
}
use native.Mathlib.Decide.{dec_le}
use serpe.Sessions.Locks.{Manager}
use serpe.Sessions.Locks.Exclusive.{bit, is_on, is_holding, Knows, Fits, lock_at}
use serpe.Sessions.Locks.Two.{Pair, PairsReached, is_inside}
use serpe.Sessions.Locks.Shape.{IsShaped}
use serpe.Sessions.Locks.Turns.{threads, PairsReached-IsOrderly}
use serpe.Sessions.Locks.Turning.{
  GoesOn, awaited_by, busy-GoesOn, holder-GoesOn, awaited_lock, waiter-GoesOn,
}

-- Among the calls that wait, one waits for an ID that is not less than any other.
abbrev IsGreatest : Bytes → Pair → Type 0
IsGreatest k p = (j : Bytes) → awaited_by p ≡ some j → bytes_ltb k j ≡ false

most_awaited :
    (ps : List Pair)
    → All (λ p. awaited_by p ≡ none) ps
      ⊎ ((k : Bytes) × Any (λ p. awaited_by p ≡ some k) ps × All (IsGreatest k) ps)
most_awaited [] = inl tt
most_awaited (p ∷ ps) = elim (Option-cases (awaited_by p)) [
  | inl idle ↦ elim (most_awaited ps) [
    | inl all_idle ↦ inl (idle, all_idle)
    | inr (k, waits, below) ↦ inr (k, inr waits, ((λ j h. absurd (cc (idle, h))), below))
  ]
  | inr (k, waits) ↦
      let own : IsGreatest k p =
        λ j h. subst (λ i. bytes_ltb k i ≡ false) (cc (waits, h)) (bytes_ltb_irrefl k) in
      elim (most_awaited ps) [
        | inl all_idle ↦
            inr (k, inl waits, (own, All-map ps (λ q idle j h. absurd (cc (idle, h))) all_idle))
        | inr (l, waits', below) ↦ elim (Bool-cases (bytes_ltb k l)) [
          | inl less ↦
              let own' : IsGreatest l p = λ j h.
                subst (λ i. bytes_ltb l i ≡ false) (cc (waits, h)) (bytes_ltb_asym k l less) in
              inr (l, inr waits', (own', below))
          | inr not_less ↦ inr (
            k,
            inl waits,
            (own, All-map ps (λ q most j h. not_above k l j not_less (most j h)) below),
          )
        ]
      ]
]
  where
    not_above :
        (k l j : Bytes) → bytes_ltb k l ≡ false → bytes_ltb l j ≡ false → bytes_ltb k j ≡ false
    not_above k l j h g = elim (Bool-cases (bytes_ltb k j)) [
      | inl above ↦ absurd (cc (g, bytes_le_lt_trans l k j h above))
      | inr fine ↦ fine
    ]

some_holder :
    (k : Bytes) (ps : List Pair)
    → 1 ≤ total (is_holding k) (threads ps)
    → Any (λ p. 1 ≤ is_holding k p.on_first + is_holding k p.on_second) ps
some_holder k [] h = absurd (omega (arith, h))
some_holder k (p ∷ ps) h = elim (dec_le 1 (is_holding k p.on_first + is_holding k p.on_second)) [
  | yes holds ↦ inl holds
  | no free ↦ inr (some_holder k ps (omega (arith, h, free)))
]

pairs_know :
    (locks : Assoc Bytes ℕ) (ps : List Pair)
    → All (Knows locks) (threads ps)
    → All (λ p. Knows locks p.on_first × Knows locks p.on_second) ps
pairs_know locks [] known = tt
pairs_know locks (p ∷ ps) known = ((known.0, known.1.0), pairs_know locks ps known.1.1)

-- While some call is inside, which is from when it asks for its first lock until it has left it, one of
-- the calls inside has a step to take that needs no context to be done, and that leaves it one step less
-- to take. This is so for calls for one ID or two, in whatever order they have moved and been cancelled.
pub no_deadlock :
    (m : Manager) (ps : List Pair)
    → PairsReached m ps
    → Any (λ p. is_inside p ≡ true) ps
    → Any (GoesOn m) ps
no_deadlock m ps r inside =
    let orderly = PairsReached-IsOrderly m ps r in
    let known = pairs_know m.locks ps orderly.exclusive.known in
    elim (most_awaited ps) [
      | inl all_idle ↦
          Any-map ps
            (λ p here (shaped, idle).
              busy-GoesOn m p.first p.second p.on_first p.on_second shaped.0 here idle)
            inside (All-both IsShaped (λ p. awaited_by p ≡ none) ps orderly.shaped all_idle)
      | inr (k, waits, below) ↦
          let (a, mapped) =
            Any-elim ps (λ p h knows. awaited_lock m.locks k p h knows) waits known in
          let fits : Fits (some (m.heap a)) (total (is_on k) (threads ps))
              (total (is_holding k) (threads ps)) =
            subst
              (λ o.
                Fits (lock_at m.heap o) (total (is_on k) (threads ps))
                  (total (is_holding k) (threads ps)))
              mapped (orderly.exclusive.fits k) in
          elim (Bool-cases (m.heap a).token) [
            | inl there ↦
                Any-map ps
                  (λ p h (shaped, knows).
                    waiter-GoesOn m p.first p.second k p.on_first p.on_second shaped.0 h knows
                      (λ b other. subst (λ c. (m.heap c).token ≡ true) (cc (mapped, other)) there))
                  waits
                  (All-both IsShaped (λ p. Knows m.locks p.on_first × Knows m.locks p.on_second) ps
                    orderly.shaped known)
            | inr taken ↦
                Any-map ps
                  (λ p held (shaped, most).
                    holder-GoesOn m p.first p.second k p.on_first p.on_second shaped.0 held most)
                  (some_holder k ps (omega (arith, fits.2, ap bit taken)))
                  (All-both IsShaped (IsGreatest k) ps orderly.shaped below)
          ]
    ]
