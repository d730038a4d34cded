-- ===== src/Loops/Machine/Termination.antt =====
-- The number of steps of runStateMachine (runtime/loops/stream.go): a measure of what is left.
use serpe.Base.{
  ℕ, ◌+◌, ◌-◌, ◌*◌, ◌≤◌, ◌<◌, ◌≡◌, refl, inl, inr, Bool, false, Option, some, Bytes, ℤ, arith,
  if◌then◌else◌, Option-cases,
}
use serpe.Loops.Budget.{
  Limits, begin_model_turn, observe_tokens, record_tool_batch, record_tool_bytes, new_run_budget,
}
use serpe.Models.{Ids}
use serpe.Loops.Machine.{
  Machine, Phase, run_start, model_start, model_stream, model_end, decide_after_model, tool_drain,
  after_tools, run_end, done, ToolChoice, Decision, answer, admit, set_stop_reason, stop_run,
  fail_run, new_machine, begin_turn, end_stream, apply_after_model, record_calls, count_batch,
  finish_tool_batch, Step, Run, here, next, started, turn, streamed, ended, decided, drained,
  finished, stopped, failing, unanswered, unstarted, uncommitted, passed, closing, close_run,
  counted,
}
use serpe.Loops.Machine.Bounds.{record_calls_lem, observe_tokens_lem, record_step_lem}

-- How many steps a phase is from the end of its turn.
abbrev pub rank : Phase → ℕ
rank run_start = 3
rank model_start = 2
rank model_stream = 8
rank model_end = 7
rank decide_after_model = 6
rank tool_drain = 5
rank after_tools = 4
rank run_end = 1
rank done = 0

abbrev pub steps_left : Machine → ℕ
steps_left s =
    if s.has_failed
    then 0
    else rank s.phase + 7 * (s.budget.limits.max_model_turns - s.budget.model_turns)

rank_pos : (p : Phase) → (p ≡ done → ⊥) → 0 < rank p
rank_pos done h = absurd (h refl)
rank_pos _ h = omega arith

begin_turn_shorter :
    (s : Machine)
    → s.phase ≡ model_start
    → s.has_failed ≡ false
    → steps_left (begin_turn s) < steps_left s
unfolding begin_turn begin_model_turn stop_run set_stop_reason
begin_turn_shorter s p f = ground arith

end_stream_shorter :
    (s t : Machine) (tokens : Option ℤ)
    → s.phase ≡ model_stream
    → s.has_failed ≡ false
    → end_stream tokens s ≡ some t
    → steps_left t < steps_left s
unfolding end_stream
end_stream_shorter s t tokens p f h = elim (Option-cases (observe_tokens tokens s.budget)) [
  | inl bad ↦ absurd (cc (bad, h))
  | inr (b, e) ↦ ground (arith, observe_tokens_lem tokens s.budget b e)
]

apply_after_model_shorter :
    (s t : Machine) (o : Bytes → Bool) (d : Decision)
    → s.phase ≡ decide_after_model
    → s.has_failed ≡ false
    → apply_after_model o d s ≡ some t
    → steps_left t < steps_left s
unfolding apply_after_model stop_run set_stop_reason
apply_after_model_shorter s t o answer p f h = ground arith
apply_after_model_shorter s t o (admit calls) p f h = ground arith

finish_tool_batch_shorter :
    (s t : Machine) (n : ℕ) (fp : Bytes) (r c : ℕ)
    → s.phase ≡ after_tools
    → s.has_failed ≡ false
    → finish_tool_batch n fp r c s ≡ some t
    → steps_left t < steps_left s
unfolding finish_tool_batch count_batch record_tool_bytes record_tool_batch stop_run set_stop_reason
finish_tool_batch_shorter s t n fp r c p f h = ground (
  arith,
  record_calls_lem n (record_tool_bytes r c s.budget),
  record_step_lem fp (record_calls n (record_tool_bytes r c s.budget)),
)

Step-shorter :
    {o : Bytes → Bool} {s t : Machine} (st : Step o s t)
    → s.has_failed ≡ false
    → counted st + steps_left t ≤ steps_left s
unfolding fail_run close_run set_stop_reason
Step-shorter (started p) f = ground arith
Step-shorter (turn {s} p) f = omega (arith, begin_turn_shorter s p f)
Step-shorter (streamed {s} {t} tokens p h) f = omega (arith, end_stream_shorter s t tokens p f h)
Step-shorter (ended p) f = ground arith
Step-shorter {o} (decided {s} {t} d p h) f = omega (arith, apply_after_model_shorter s t o d p f h)
Step-shorter (drained p) f = ground arith
Step-shorter (finished {s} {t} n fp r c p le h) f =
    omega (arith, finish_tool_batch_shorter s t n fp r c p f h)
Step-shorter (stopped p) f = ground arith
Step-shorter (failing {s} b p q) f = rw f (omega (arith, rank_pos s.phase q))
Step-shorter (unanswered {s} b p h) f = rw (f, p) (omega arith)
Step-shorter (unstarted {s} b calls p h q) f = rw (f, p) (omega arith)
Step-shorter (uncommitted {s} b r c p h) f = rw (f, p) (omega arith)
Step-shorter (passed p) f = omega arith
Step-shorter (closing {s}) f = ground arith

-- A run makes at most seven calls of `step` for each model turn of its limits and three more, apart from
-- the calls that pass on one event of a streaming response or of a batch at work, of which there may be
-- any number, and whenever it is closed.
pub Run-terminates :
    {o : Bytes → Bool} (l : Limits) (canonical : ℕ) (seen : Ids) (choice : ToolChoice) {n : ℕ}
    {s : Machine}
    → Run o (new_machine l canonical seen choice) n s
    → n + steps_left s ≤ 3 + 7 * l.max_model_turns
unfolding new_machine new_run_budget
Run-terminates l canonical seen choice here = omega arith
Run-terminates l canonical seen choice (next r f st) =
    omega (arith, Run-terminates l canonical seen choice r, Step-shorter st f)
