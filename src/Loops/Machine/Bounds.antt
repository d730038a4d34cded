-- ===== src/Loops/Machine/Bounds.antt =====
-- The counters and the stop reason of runStateMachine (runtime/loops/stream.go).
use serpe.Base.{
  ℕ, zero, suc, ◌+◌, ◌≤◌, ◌≡◌, inl, inr, Bool, true, false, Option, none, some, Bytes, ℤ, arith,
  if◌then◌else◌, length, Option-cases,
}
use serpe.Loops.Budget.{
  Limits, RunBudget, StopReason, begin_model_turn, observe_tokens, stop_before_tools,
  record_tool_call, record_tool_batch, fits_tool_bytes, record_tool_bytes, record_step,
}
use serpe.Models.{Ids}
use serpe.Loops.Machine.{
  Machine, Phase, model_start, model_stream, decide_after_model, tool_drain, after_tools, run_end,
  done, ToolChoice, Decision, answer, admit, set_stop_reason, stop_run, fail_run, new_machine,
  begin_turn, end_stream, apply_after_model, record_calls, count_batch, finish_tool_batch, Step,
  Run, here, next, started, turn, streamed, ended, decided, drained, finished, stopped, failing,
  unanswered, unstarted, uncommitted, passed, closing, close_run,
}

-- A batch is at work.
abbrev is_batch : Phase → Bool
is_batch tool_drain = true
is_batch after_tools = true
is_batch _ = false

-- The stop of the run has been decided.
abbrev pub is_stopping : Phase → Bool
is_stopping run_end = true
is_stopping done = true
is_stopping _ = false

abbrev pub is_stopped : Machine → Bool
is_stopped s = if s.has_failed then true else is_stopping s.phase

abbrev pub has_reason : Machine → Bool
has_reason s = elim s.stop_reason [ none ↦ false | some _ ↦ true ]

record Inv (limits : Limits) (s : Machine) : Type 0 where
  same_limits : s.budget.limits ≡ limits
  turns : s.budget.model_turns ≤ limits.max_model_turns
  calls : s.budget.tool_calls ≤ limits.max_tool_calls
  batch : is_batch s.phase ≡ true → s.budget.tool_calls + s.batch_calls ≤ limits.max_tool_calls
  retained : s.budget.retained_tool_bytes ≤ limits.max_retained_tool_bytes
  canonical : s.budget.canonical_tool_bytes ≤ limits.max_canonical_tool_bytes
  reason : has_reason s ≡ is_stopped s

pub record_calls_lem :
    (n : ℕ) (b : RunBudget) → record_calls n b ≡ record b { tool_calls = b.tool_calls + n }
unfolding record_calls record_tool_call
record_calls_lem zero b = ground arith
record_calls_lem (suc n) b = ground (arith, record_calls_lem n (record_tool_call b))

begin_turn-Inv :
    {l : Limits} {s : Machine}
    → Inv l s
    → s.phase ≡ model_start
    → s.has_failed ≡ false
    → Inv l (begin_turn s)
unfolding begin_turn begin_model_turn stop_run set_stop_reason
begin_turn-Inv v p f = ground arith

pub observe_tokens_lem :
    (t : Option ℤ) (b c : RunBudget)
    → observe_tokens t b ≡ some c
    → (c.limits ≡ b.limits)
      × (c.model_turns ≡ b.model_turns)
      × (c.tool_calls ≡ b.tool_calls)
      × (c.retained_tool_bytes ≡ b.retained_tool_bytes)
      × (c.canonical_tool_bytes ≡ b.canonical_tool_bytes)
unfolding observe_tokens
observe_tokens_lem none b c h = ground arith
observe_tokens_lem (some r) b c h = ground arith

end_stream-Inv :
    {l : Limits} {s t : Machine} (tokens : Option ℤ)
    → Inv l s
    → s.phase ≡ model_stream
    → s.has_failed ≡ false
    → end_stream tokens s ≡ some t
    → Inv l t
unfolding end_stream
end_stream-Inv {l} {s} tokens v p f h = elim (Option-cases (observe_tokens tokens s.budget)) [
  | inl bad ↦ absurd (cc (bad, h))
  | inr (b, e) ↦ ground (arith, observe_tokens_lem tokens s.budget b e)
]

stop_before_tools_lem :
    (n : ℕ) (b : RunBudget)
    → stop_before_tools n b ≡ none
    → n + b.tool_calls ≤ b.limits.max_tool_calls
unfolding stop_before_tools
stop_before_tools_lem n b h = ground arith

apply_after_model-Inv :
    {l : Limits} {s t : Machine} (o : Bytes → Bool) (d : Decision)
    → Inv l s
    → s.phase ≡ decide_after_model
    → s.has_failed ≡ false
    → apply_after_model o d s ≡ some t
    → Inv l t
unfolding apply_after_model stop_run set_stop_reason
apply_after_model-Inv {s} o answer v p f h = ground arith
apply_after_model-Inv {s} o (admit calls) v p f h =
    ground (arith, stop_before_tools_lem (length calls) s.budget)

pub record_step_lem :
    (fp : Bytes) (b : RunBudget)
    → let c = (record_step fp b).1 in
      (c.limits ≡ b.limits)
      × (c.model_turns ≡ b.model_turns)
      × (c.tool_calls ≡ b.tool_calls)
      × (c.retained_tool_bytes ≡ b.retained_tool_bytes)
      × (c.canonical_tool_bytes ≡ b.canonical_tool_bytes)
unfolding record_step
record_step_lem fp b = ground arith

finish_tool_batch-Inv :
    {l : Limits} {s t : Machine} (n : ℕ) (fp : Bytes) (r c : ℕ)
    → Inv l s
    → s.phase ≡ after_tools
    → s.has_failed ≡ false
    → n ≤ s.batch_calls
    → finish_tool_batch n fp r c s ≡ some t
    → Inv l t
unfolding finish_tool_batch count_batch fits_tool_bytes record_tool_bytes record_tool_batch stop_run
    set_stop_reason
finish_tool_batch-Inv {l} {s} n fp r c v p f le h = ground (
  arith,
  record_calls_lem n (record_tool_bytes r c s.budget),
  record_step_lem fp (record_calls n (record_tool_bytes r c s.budget)),
)

Step-Inv :
    {l : Limits} {o : Bytes → Bool} {s t : Machine}
    → Step o s t
    → s.has_failed ≡ false
    → Inv l s
    → Inv l t
unfolding fail_run close_run set_stop_reason begin_model_turn fits_tool_bytes record_tool_bytes
Step-Inv (started p) f v = ground arith
Step-Inv (turn p) f v = begin_turn-Inv v p f
Step-Inv (streamed tokens p h) f v = end_stream-Inv tokens v p f h
Step-Inv (ended p) f v = ground arith
Step-Inv {o} (decided d p h) f v = apply_after_model-Inv o d v p f h
Step-Inv (drained p) f v = ground arith
Step-Inv (finished n fp r c p le h) f v = finish_tool_batch-Inv n fp r c v p f le h
Step-Inv (stopped p) f v = ground arith
Step-Inv (failing b p q) f v = ground arith
Step-Inv (unanswered b p h) f v = ground arith
Step-Inv (unstarted b calls p h q) f v = ground arith
Step-Inv (uncommitted b r c p h) f v = ground arith
Step-Inv (passed p) f v = v
Step-Inv (closing {s}) f v = ground arith

-- Every state of a run from new limits keeps to them.
Run-Inv :
    {o : Bytes → Bool} (l : Limits) (canonical : ℕ) (seen : Ids) (choice : ToolChoice) {n : ℕ}
    {s : Machine}
    → canonical ≤ l.max_canonical_tool_bytes
    → Run o (new_machine l canonical seen choice) n s
    → Inv l s
unfolding new_machine
Run-Inv l canonical seen choice le here = ground arith
Run-Inv l canonical seen choice le (next r f st) =
    Step-Inv st f (Run-Inv l canonical seen choice le r)

-- From a history whose bytes fit, whatever the model and the tools answer, a run makes at most the model turns and the tool calls of
-- its limits, keeps at most their bytes, and has a stop reason exactly when it has failed or its stop
-- has been decided.
pub Run-within_limits :
    {o : Bytes → Bool} (l : Limits) (canonical : ℕ) (seen : Ids) (choice : ToolChoice) {n : ℕ}
    {s : Machine}
    → canonical ≤ l.max_canonical_tool_bytes
    → Run o (new_machine l canonical seen choice) n s
    → (s.budget.model_turns ≤ l.max_model_turns)
      × (s.budget.tool_calls ≤ l.max_tool_calls)
      × (s.budget.retained_tool_bytes ≤ l.max_retained_tool_bytes)
      × (s.budget.canonical_tool_bytes ≤ l.max_canonical_tool_bytes)
      × (has_reason s ≡ is_stopped s)
Run-within_limits l canonical seen choice le r =
    let v = Run-Inv l canonical seen choice le r in
    (v.turns, v.calls, v.retained, v.canonical, v.reason)

-- The first stop reason stays: no step of a run changes one that is set, also none that is taken after
-- a failure or after `Close`, and neither does `Close`.
pub stop_reason_stays :
    {o : Bytes → Bool} {s t : Machine} (x : StopReason)
    → Step o s t
    → s.stop_reason ≡ some x
    → t.stop_reason ≡ some x
unfolding begin_turn end_stream apply_after_model finish_tool_batch count_batch fail_run close_run
    stop_run set_stop_reason
stop_reason_stays x (started p) h = h
stop_reason_stays x (turn p) h = ground arith
stop_reason_stays x (streamed tokens p e) h = ground arith
stop_reason_stays x (ended p) h = h
stop_reason_stays x (decided answer p e) h = ground arith
stop_reason_stays x (decided (admit calls) p e) h = ground arith
stop_reason_stays x (drained p) h = h
stop_reason_stays x (finished n fp r c p le e) h = ground arith
stop_reason_stays x (stopped p) h = h
stop_reason_stays x (failing b p q) h = ground arith
stop_reason_stays x (unanswered b p e) h = ground arith
stop_reason_stays x (unstarted b calls p e q) h = ground arith
stop_reason_stays x (uncommitted b r c p e) h = ground arith
stop_reason_stays x (passed p) h = h
stop_reason_stays x closing h = ground arith
