-- ===== src/Sessions/DrainClose.antt =====
-- drainClose of runtime/sessions/lifecycle.go. Each region under the mutex is a function, and the
-- goroutines are threads whose regions interleave. `E` is the type of what the closing function
-- returns. A thread that waits on the condition is woken to look again, so it takes its step whenever
-- the count is 0.
pub mod Totals
pub mod Drained
use serpe.Base.{
  ℕ, zero, suc, ◌+◌, ◌-◌, ◌≡◌, Bool, true, false, Option, none, some, List, [], ◌∷◌, ◌++◌,
  if◌then◌else◌,
}

pub record DrainClose (E : Type 0) : Type 0 where
  pub active : ℕ
  pub closing : Bool
  -- `closeErr`, and `none` while the channel `closeDone` is open.
  pub close_err : Option E

module _ {E : Type 0} where
  -- Whether the operation is let in.
  unfoldable pub enter : DrainClose E → DrainClose E × Bool
  enter d = if d.closing then (d, false) else (record d { active = suc d.active }, true)

  unfoldable pub leave : DrainClose E → DrainClose E
  leave d = record d { active = d.active - 1 }

  -- The first region of `close`: whether the caller is the one that closes.
  unfoldable pub begin_close : DrainClose E → DrainClose E × Bool
  begin_close d = if d.closing then (d, false) else (record d { closing = true }, true)

  -- The last region of the caller that closes.
  unfoldable pub end_close : E → DrainClose E → DrainClose E
  end_close e d = record d { close_err = some e }

-- A goroutine: in front of its call, in an operation or refused, in `close` waiting for the operations,
-- in the closing function, waiting for another closer, or back from `close` with an error value.
pub data Thread (E : Type 0) : Type 0 where
  outside inside left_gate refused waiting running joining : Thread E
  returned : E → Thread E

pub record Gate (E : Type 0) : Type 0 where
  pub drain : DrainClose E
  pub threads : List (Thread E)

pub data Step {E : Type 0} : Gate E → Gate E → Type 0 where
  enters :
      (d : DrainClose E) (before after : List (Thread E))
      → Step
          (record { drain = d; threads = before ++ outside ∷ after })
          (record {
            drain = (enter d).0;
            threads = before ++ (if (enter d).1 then inside else refused) ∷ after;
          })
  leaves :
      (d : DrainClose E) (before after : List (Thread E))
      → Step
          (record { drain = d; threads = before ++ inside ∷ after })
          (record { drain = leave d; threads = before ++ left_gate ∷ after })
  closes :
      (d : DrainClose E) (before after : List (Thread E))
      → Step
          (record { drain = d; threads = before ++ outside ∷ after })
          (record {
            drain = (begin_close d).0;
            threads = before ++ (if (begin_close d).1 then waiting else joining) ∷ after;
          })
  runs :
      (d : DrainClose E) (before after : List (Thread E))
      → d.active ≡ 0
      → Step
          (record { drain = d; threads = before ++ waiting ∷ after })
          (record { drain = d; threads = before ++ running ∷ after })
  ends :
      (d : DrainClose E) (before after : List (Thread E)) (e : E)
      → Step
          (record { drain = d; threads = before ++ running ∷ after })
          (record { drain = end_close e d; threads = before ++ returned e ∷ after })
  joins :
      (d : DrainClose E) (before after : List (Thread E)) (e : E)
      → d.close_err ≡ some e
      → Step
          (record { drain = d; threads = before ++ joining ∷ after })
          (record { drain = d; threads = before ++ returned e ∷ after })

abbrev pub new_drain_close : {E : Type 0} → DrainClose E
new_drain_close = record { active = 0; closing = false; close_err = none }

-- Any number of goroutines in front of their calls.
abbrev pub callers : {E : Type 0} → ℕ → List (Thread E)
callers zero = []
callers (suc n) = outside ∷ callers n

pub data Reached {E : Type 0} : Gate E → Type 0 where
  initial : (n : ℕ) → Reached (record { drain = new_drain_close; threads = callers n })
  next : {g h : Gate E} → Reached g → Step g h → Reached h
