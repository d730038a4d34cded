-- ===== src/Sessions/DrainClose/Drained.antt =====
-- What drainClose of runtime/sessions/lifecycle.go guarantees to the function that closes.
use serpe.Base.{
  ℕ, suc, sym, true, total, total-middle, All-replaced, ◌+◌, ◌≤◌, ◌≡◌, refl, false, none, some,
  List, ◌∷◌, ◌++◌, if◌then◌else◌, arith, Bool-cases, inl, inr, subst,
}
use serpe.Sessions.DrainClose.{
  DrainClose, Thread, outside, inside, left_gate, refused, waiting, running, joining, returned,
  enter, leave, begin_close, end_close, Gate, Step, enters, leaves, closes, runs, ends, joins,
  new_drain_close, callers, Reached, initial, next,
}
use serpe.Sessions.DrainClose.Totals.{
  is_inside, is_running, is_closer, HasResult, AllReturned, result_set, is_some_err, unset,
  running_closes, callers-total, callers-AllReturned,
}

module _ {E : Type 0} (d : DrainClose E) where
  enter_refuses : d.closing ≡ true → enter d ≡ (d, false)
  unfolding enter
  enter_refuses closing = rw closing refl

  enter_admits : d.closing ≡ false → enter d ≡ (record d { active = suc d.active }, true)
  unfolding enter
  enter_admits unclosed = rw unclosed refl

  begin_close_joins : d.closing ≡ true → begin_close d ≡ (d, false)
  unfolding begin_close
  begin_close_joins closing = rw closing refl

  begin_close_begins : d.closing ≡ false → begin_close d ≡ (record d { closing = true }, true)
  unfolding begin_close
  begin_close_begins unclosed = rw unclosed refl

module _ {E : Type 0} where
  -- The state of the drain, against the operations in progress, the closers that have not ended and
  -- those of them in the closing function.
  record Agrees (d : DrainClose E) (inner closers run : ℕ) : Type 0 where
    counted : d.active ≡ inner
    one_closer : closers + is_some_err d.close_err ≤ 1
    open_until : d.closing ≡ false → closers + is_some_err d.close_err ≡ 0
    run_alone : 1 ≤ run + is_some_err d.close_err → inner ≡ 0

  record IsDrained (d : DrainClose E) (ts : List (Thread E)) : Type 0 where
    counts : Agrees d (total is_inside ts) (total is_closer ts) (total is_running ts)
    results : AllReturned d.close_err ts

  initial-IsDrained : (n : ℕ) → IsDrained new_drain_close (callers n)
  initial-IsDrained n =
      let i = callers-total {E = E} is_inside n refl in
      let c = callers-total {E = E} is_closer n refl in
      record { counts = ground (arith, i, c); results = callers-AllReturned none n }

  module _ (d : DrainClose E) (before after : List (Thread E)) where
    abbrev at : Thread E → List (Thread E)
    at t = before ++ t ∷ after

    -- A step of one thread, where all that counts of the others is how many do what.
    moves-IsDrained :
        (d' : DrainClose E) (t u : Thread E)
        → HasResult d'.close_err u
        → (AllReturned d.close_err (at t) → AllReturned d'.close_err (at t))
        → ((inner closers run : ℕ)
            → run ≤ closers
            → Agrees d (is_inside t + inner) (is_closer t + closers) (is_running t + run)
            → Agrees d' (is_inside u + inner) (is_closer u + closers) (is_running u + run))
        → IsDrained d (at t)
        → IsDrained d' (at u)
    moves-IsDrained d' t u result results agrees h = record {
      counts =
          rw
            (
              total-middle is_inside before u after,
              total-middle is_closer before u after,
              total-middle is_running before u after,
            )
            (agrees (total is_inside before + total is_inside after)
              (total is_closer before + total is_closer after)
              (total is_running before + total is_running after)
              (omega (arith, running_closes before, running_closes after))
              (rw
                (
                  total-middle is_inside before t after,
                  total-middle is_closer before t after,
                  total-middle is_running before t after,
                )
                at h.counts));
      results = All-replaced (HasResult d'.close_err) before after t u result (results h.results);
    }

    enters-IsDrained :
        IsDrained d (at outside)
        → IsDrained (enter d).0 (at (if (enter d).1 then inside else refused))
    enters-IsDrained = elim (Bool-cases d.closing) [
      | inl closing ↦
          subst
            (λ p. IsDrained d (at outside) → IsDrained p.0 (at (if p.1 then inside else refused)))
            (sym (enter_refuses d closing))
            (moves-IsDrained d outside refused tt (λ r. r) (λ i c r le a. a))
      | inr unclosed ↦
          subst
            (λ p. IsDrained d (at outside) → IsDrained p.0 (at (if p.1 then inside else refused)))
            (sym (enter_admits d unclosed))
            (moves-IsDrained (record d { active = suc d.active }) outside inside tt (λ r. r)
              (λ i c r le a. ground (arith, le, unclosed)))
    ]

    closes-IsDrained :
        IsDrained d (at outside)
        → IsDrained (begin_close d).0 (at (if (begin_close d).1 then waiting else joining))
    closes-IsDrained = elim (Bool-cases d.closing) [
      | inl closing ↦
          subst
            (λ p. IsDrained d (at outside) → IsDrained p.0 (at (if p.1 then waiting else joining)))
            (sym (begin_close_joins d closing))
            (moves-IsDrained d outside joining tt (λ r. r) (λ i c r le a. a))
      | inr unclosed ↦
          subst
            (λ p. IsDrained d (at outside) → IsDrained p.0 (at (if p.1 then waiting else joining)))
            (sym (begin_close_begins d unclosed))
            (moves-IsDrained (record d { closing = true }) outside waiting tt (λ r. r)
              (λ i c r le a. ground (arith, le, unclosed)))
    ]

    leaves-IsDrained : IsDrained d (at inside) → IsDrained (leave d) (at left_gate)
    unfolding leave
    leaves-IsDrained =
        moves-IsDrained (leave d) inside left_gate tt (λ r. r) (λ i c r le a. ground (arith, le))

    runs-IsDrained : d.active ≡ 0 → IsDrained d (at waiting) → IsDrained d (at running)
    runs-IsDrained idle =
        moves-IsDrained d waiting running tt (λ r. r) (λ i c r le a. ground (arith, idle))

    ends-IsDrained :
        (e : E) → IsDrained d (at running) → IsDrained (end_close e d) (at (returned e))
    unfolding end_close
    ends-IsDrained e h =
        let alone : is_some_err d.close_err ≤ 0 =
          omega (arith, h.counts.one_closer, total-middle is_closer before running after) in
        moves-IsDrained (end_close e d) running (returned e) refl
          (λ r.
            result_set e (at running)
              (subst (λ o. AllReturned o (at running)) (unset d.close_err alone) r))
          (λ i c r le a. ground (arith, le, alone)) h

    joins-IsDrained :
        (e : E) → d.close_err ≡ some e → IsDrained d (at joining) → IsDrained d (at (returned e))
    joins-IsDrained e set = moves-IsDrained d joining (returned e) set (λ r. r) (λ i c r le a. a)

  Step-IsDrained :
      (g h : Gate E) → Step g h → IsDrained g.drain g.threads → IsDrained h.drain h.threads
  Step-IsDrained _ _ (enters d before after) i = enters-IsDrained d before after i
  Step-IsDrained _ _ (leaves d before after) i = leaves-IsDrained d before after i
  Step-IsDrained _ _ (closes d before after) i = closes-IsDrained d before after i
  Step-IsDrained _ _ (runs d before after idle) i = runs-IsDrained d before after idle i
  Step-IsDrained _ _ (ends d before after e) i = ends-IsDrained d before after e i
  Step-IsDrained _ _ (joins d before after e set) i = joins-IsDrained d before after e set i

  Reached-IsDrained : (g : Gate E) → Reached g → IsDrained g.drain g.threads
  Reached-IsDrained _ (initial n) = initial-IsDrained n
  Reached-IsDrained _ (next {g} {h} r s) = Step-IsDrained g h s (Reached-IsDrained g r)

  -- In every reachable state at most one thread is in the closing function, and never again once it has
  -- returned; from when it runs, no operation is in progress; and every thread that is back from `close`
  -- has what the closing function returned.
  pub Reached-closes_alone :
      (g : Gate E)
      → Reached g
      → (total is_running g.threads + is_some_err g.drain.close_err ≤ 1)
        × (1 ≤ total is_running g.threads + is_some_err g.drain.close_err
            → total is_inside g.threads ≡ 0)
        × AllReturned g.drain.close_err g.threads
  Reached-closes_alone g r =
      let i = Reached-IsDrained g r in
      (omega (arith, i.counts.one_closer, running_closes g.threads), i.counts.run_alone, i.results)
