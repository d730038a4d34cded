-- ===== src/Loops/Machine.antt =====
-- The phases of a run: `runStateMachine` of runtime/loops/stream.go, with `setStopReason` of
-- runtime/loops/result.go and `resolveToolChoice` of runtime/loops/policy.go. What the model and the
-- tools answer are arguments of the phase that reads it. A phase that returns an error ends the run
-- in `fail_run`, with what the phase had counted by then.
pub mod Bounds
pub mod Termination
use serpe.Base.{
  ℕ, zero, suc, ◌+◌, ◌-◌, ◌≤◌, ◌≡◌, refl, Bool, true, false, ◌&&◌, ◌||◌, not, Option, none, some,
  List, [], ◌==◌, ltb, leb, length, if◌then◌else◌, Bytes, ℤ, Assoc, nat_eq,
}
use serpe.Loops.Budget.{
  Limits, RunBudget, StopReason, completed, max_turns, stalled, failed, cancelled, begin_model_turn,
  observe_tokens, stop_before_tools, record_tool_call, record_tool_batch, fits_tool_bytes,
  record_tool_bytes, record_step, new_run_budget,
}
use serpe.Models.{ToolCall, Ids}
use serpe.Loops.Ledger.{ok, err, accept}

pub data Phase : Type 0 where
  run_start model_start model_stream model_end decide_after_model : Phase
  tool_drain after_tools run_end done : Phase

-- `models.ToolChoice`; `unset` is the zero value.
pub data ToolChoice : Type 0 where
  unset auto forbidden required : ToolChoice
  specific : Bytes → ToolChoice

pub record Machine : Type 0 where
  pub phase : Phase
  pub budget : RunBudget
  pub seen : Ids
  pub stop_reason : Option StopReason
  pub base_choice : ToolChoice
  pub turn_choice : ToolChoice
  -- the number of calls of `s.batch`
  pub batch_calls : ℕ
  -- `s.err` is set, and `Next` takes no further step
  pub has_failed : Bool
  pub is_closed : Bool

-- `decision.action` with its calls: complete and refuse are treated alike.
pub data Decision : Type 0 where
  answer : Decision
  admit : List ToolCall → Decision

abbrev is_forbidden : ToolChoice → Bool
is_forbidden forbidden = true
is_forbidden _ = false

unfoldable pub resolve_tool_choice : ToolChoice → ℕ → ToolChoice
resolve_tool_choice base completed_tool_batches =
    if ltb 0 completed_tool_batches && not (is_forbidden base) then auto else base

-- The first reason stays.
unfoldable pub set_stop_reason : StopReason → Machine → Machine
set_stop_reason reason s = elim s.stop_reason [
  | none ↦ record s { stop_reason = some reason }
  | some _ ↦ s
]

unfoldable pub stop_run : StopReason → Machine → Machine
unfolding set_stop_reason
stop_run reason s = record (set_stop_reason reason s) { phase = run_end }

-- `fail`: the reason depends on whether the error is a cancellation, and the stream is finished.
unfoldable pub fail_run : Bool → Machine → Machine
unfolding set_stop_reason
fail_run is_cancelled s = record (set_stop_reason (if is_cancelled then cancelled else failed) s) {
  has_failed = true;
}

unfoldable pub new_machine : Limits → ℕ → Ids → ToolChoice → Machine
unfolding new_run_budget
new_machine limits canonical seen choice = record {
  phase = run_start;
  budget = new_run_budget limits canonical;
  seen = seen;
  stop_reason = none;
  base_choice = choice;
  turn_choice = choice;
  batch_calls = 0;
  has_failed = false;
  is_closed = false;
}

abbrev is_done : Phase → Bool
is_done done = true
is_done _ = false

abbrev is_none : Option StopReason → Bool
is_none none = true
is_none (some x) = false

-- `Close`. `s.finished` is set by a failure, by `Close` and where `Next` has come to `done`.
unfoldable pub close_run : Machine → Machine
unfolding set_stop_reason
close_run s =
    let closed = record s { is_closed = true } in
    if s.is_closed
    then s
    else if not (is_done s.phase) && not s.has_failed && is_none s.stop_reason
    then record (set_stop_reason cancelled closed) { has_failed = true }
    else closed

-- `step` passes on an event of the response or of the batch, and stays in its phase.
abbrev pub passes_events : Phase → Bool
passes_events model_stream = true
passes_events tool_drain = true
passes_events _ = false

-- `beginModelTurn`
unfoldable pub begin_turn : Machine → Machine
unfolding begin_model_turn resolve_tool_choice stop_run
begin_turn s =
    let (started, budget) = begin_model_turn s.budget in
    if started
    then record s {
      budget = budget;
      turn_choice = resolve_tool_choice s.base_choice budget.tool_batches;
      phase = model_stream;
    }
    else stop_run max_turns s

-- The end of `consumeModelEvent`, with the tokens that the response reports.
unfoldable pub end_stream : Option ℤ → Machine → Option Machine
unfolding observe_tokens
end_stream tokens s = elim (observe_tokens tokens s.budget) [
  | none ↦ none
  | some budget ↦ some (record s { budget = budget; phase = model_end })
]

-- `applyAfterModel` up to the start of the tools.
unfoldable pub apply_after_model : (Bytes → Bool) → Decision → Machine → Option Machine
unfolding stop_run stop_before_tools accept
apply_after_model is_object answer s = some (stop_run completed s)
apply_after_model is_object (admit calls) s = elim (stop_before_tools (length calls) s.budget) [
  | some reason ↦ some (stop_run reason s)
  | none ↦ elim (accept is_object calls s.seen) [
    | err e ↦ none
    | ok seen ↦ some (record s { seen = seen; batch_calls = length calls; phase = tool_drain })
  ]
]

unfoldable pub record_calls : ℕ → RunBudget → RunBudget
unfolding record_tool_call
record_calls zero b = b
record_calls (suc n) b = record_calls n (record_tool_call b)

-- The end of `finishToolBatch` for a batch with `contents` finished outputs.
unfoldable pub count_batch : ℕ → Bytes → Machine → Machine
unfolding record_calls record_step stop_run record_tool_batch
count_batch contents fingerprint s =
    let (is_stalled, budget) = record_step fingerprint (record_calls contents s.budget) in
    let counted = record s { budget = budget } in
    if is_stalled
    then stop_run stalled counted
    else record counted { budget = record_tool_batch budget; batch_calls = 0; phase = model_start }

unfoldable pub finish_tool_batch : ℕ → Bytes → ℕ → ℕ → Machine → Option Machine
unfolding fits_tool_bytes record_tool_bytes count_batch
finish_tool_batch contents fingerprint retained canonical s =
    if fits_tool_bytes retained canonical s.budget
    then some (
        count_batch contents fingerprint
          (record s { budget = record_tool_bytes retained canonical s.budget }))
    else none

-- One call of `step` by `Next`, or a call of `Close`, which any goroutine may make between two
-- of them. The contents of a batch are outputs of its calls, so there are at most as many.
pub data Step (is_object : Bytes → Bool) : Machine → Machine → Type 0 where
  started :
      {s : Machine} → s.phase ≡ run_start → Step is_object s (record s { phase = model_start })
  turn : {s : Machine} → s.phase ≡ model_start → Step is_object s (begin_turn s)
  streamed :
      {s t : Machine} (tokens : Option ℤ)
      → s.phase ≡ model_stream
      → end_stream tokens s ≡ some t
      → Step is_object s t
  ended :
      {s : Machine}
      → s.phase ≡ model_end
      → Step is_object s (record s { phase = decide_after_model })
  decided :
      {s t : Machine} (decision : Decision)
      → s.phase ≡ decide_after_model
      → apply_after_model is_object decision s ≡ some t
      → Step is_object s t
  drained :
      {s : Machine} → s.phase ≡ tool_drain → Step is_object s (record s { phase = after_tools })
  finished :
      {s t : Machine} (contents : ℕ) (fingerprint : Bytes) (retained canonical : ℕ)
      → s.phase ≡ after_tools
      → contents ≤ s.batch_calls
      → finish_tool_batch contents fingerprint retained canonical s ≡ some t
      → Step is_object s t
  stopped : {s : Machine} → s.phase ≡ run_end → Step is_object s (record s { phase = done })
  failing :
      {s : Machine} (is_cancelled : Bool)
      → (s.phase ≡ run_end → ⊥)
      → (s.phase ≡ done → ⊥)
      → Step is_object s (fail_run is_cancelled s)
  -- The turn was counted, and the request or the stream of the model failed.
  unanswered :
      {s : Machine} {b : RunBudget} (is_cancelled : Bool)
      → s.phase ≡ model_start
      → begin_model_turn s.budget ≡ (true, b)
      → Step is_object s (fail_run is_cancelled (record s { budget = b }))
  -- The calls were accepted, and their batch did not start.
  unstarted :
      {s t : Machine} (is_cancelled : Bool) (calls : List ToolCall)
      → s.phase ≡ decide_after_model
      → apply_after_model is_object (admit calls) s ≡ some t
      → t.phase ≡ tool_drain
      → Step is_object s (fail_run is_cancelled (record s { seen = t.seen }))
  -- The bytes of the batch were recorded, and the exchange was not committed.
  uncommitted :
      {s : Machine} (is_cancelled : Bool) (retained canonical : ℕ)
      → s.phase ≡ after_tools
      → fits_tool_bytes retained canonical s.budget ≡ true
      → Step is_object s (
          fail_run is_cancelled
            (record s { budget = record_tool_bytes retained canonical s.budget }))
  passed : {s : Machine} → passes_events s.phase ≡ true → Step is_object s s
  closing : {s : Machine} → Step is_object s (close_run s)

-- What a step counts for: a call of `step` that passes on no event of a response or of a batch counts,
-- and a call of `Close` does not.
abbrev pub counted : {o : Bytes → Bool} {s t : Machine} → Step o s t → ℕ
counted (passed p) = 0
counted closing = 0
counted _ = 1

-- Steps from `s`, none of them after a failure, of which `n` count.
pub data Run (is_object : Bytes → Bool) (s : Machine) : ℕ → Machine → Type 0 where
  here : Run is_object s zero s
  next :
      {n : ℕ} {t u : Machine}
      → Run is_object s n t
      → t.has_failed ≡ false
      → (st : Step is_object t u) → Run is_object s (counted st + n) u
