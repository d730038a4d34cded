-- ===== src/Sessions/DrainClose/Totals.antt =====
-- The threads of drainClose of runtime/sessions/lifecycle.go by what they do, and what they return.
use serpe.Base.{total, All, ℕ, zero, suc, ◌≤◌, ◌≡◌, refl, Option, none, some, List, [], ◌∷◌, arith}
use serpe.Sessions.DrainClose.{
  Thread, outside, inside, left_gate, refused, waiting, running, joining, returned, callers,
}

module _ {E : Type 0} where
  abbrev pub is_inside : Thread E → ℕ
  is_inside inside = 1
  is_inside _ = 0

  abbrev pub is_running : Thread E → ℕ
  is_running running = 1
  is_running _ = 0

  -- The thread has begun to close and has not ended.
  abbrev pub is_closer : Thread E → ℕ
  is_closer waiting = 1
  is_closer running = 1
  is_closer _ = 0

  -- A thread that is back from `close` has what the closing function returned.
  abbrev pub HasResult : Option E → Thread E → Type 0
  HasResult err (returned e) = err ≡ some e
  HasResult err _ = Unit

  abbrev pub AllReturned : Option E → List (Thread E) → Type 0
  AllReturned err = All (HasResult err)

  -- As long as the closing function has not returned, no thread is back.
  pub result_set :
      (e : E) (threads : List (Thread E)) → AllReturned none threads → AllReturned (some e) threads
  result_set e [] all = tt
  result_set e (outside ∷ ts) all = (tt, result_set e ts all.1)
  result_set e (inside ∷ ts) all = (tt, result_set e ts all.1)
  result_set e (left_gate ∷ ts) all = (tt, result_set e ts all.1)
  result_set e (refused ∷ ts) all = (tt, result_set e ts all.1)
  result_set e (waiting ∷ ts) all = (tt, result_set e ts all.1)
  result_set e (running ∷ ts) all = (tt, result_set e ts all.1)
  result_set e (joining ∷ ts) all = (tt, result_set e ts all.1)
  result_set e (returned x ∷ ts) all = absurd (cc (all.0))

  abbrev pub is_some_err : Option E → ℕ
  is_some_err none = 0
  is_some_err (some e) = 1

  pub unset : (r : Option E) → is_some_err r ≤ 0 → r ≡ none
  unset none h = refl
  unset (some e) h = absurd (omega (arith, h))

  pub is_running_closes : (t : Thread E) → is_running t ≤ is_closer t
  is_running_closes outside = omega arith
  is_running_closes inside = omega arith
  is_running_closes left_gate = omega arith
  is_running_closes refused = omega arith
  is_running_closes waiting = omega arith
  is_running_closes running = omega arith
  is_running_closes joining = omega arith
  is_running_closes (returned e) = omega arith

  pub running_closes : (ts : List (Thread E)) → total is_running ts ≤ total is_closer ts
  running_closes [] = omega arith
  running_closes (t ∷ ts) = omega (arith, is_running_closes t, running_closes ts)

  pub callers-total : (f : Thread E → ℕ) (n : ℕ) → f outside ≡ 0 → total f (callers n) ≡ 0
  callers-total f zero h = refl
  callers-total f (suc n) h = omega (arith, h, callers-total f n h)

  pub callers-AllReturned : (err : Option E) (n : ℕ) → AllReturned err (callers n)
  callers-AllReturned err zero = tt
  callers-AllReturned err (suc n) = (tt, callers-AllReturned err n)
