-- ===== src/Loops/Budget.antt =====
-- `runBudget` of runtime/loops/run_state.go. `normalizeLimits` refuses negative limits and every
-- counter starts at 0, so the int and int64 fields are numbers; a difference of two of them stands
-- here as a comparison of sums, which is the same on int64 values that are not negative.
use serpe.Base.{
  max_int64, ℕ, ◌+◌, ◌-◌, Bool, true, false, ◌&&◌, ◌||◌, Option, none, some, [], ◌==◌, ltb, leb,
  if◌then◌else◌, Bytes, bytes_eq, ℤ, pos, negsuc, nat_eq,
}

pub record Limits : Type 0 where
  pub max_model_turns : ℕ
  pub max_tool_calls : ℕ
  pub max_observed_tokens : ℕ
  pub max_identical_steps : ℕ
  pub max_retained_tool_bytes : ℕ
  pub max_canonical_tool_bytes : ℕ

pub record RunBudget : Type 0 where
  pub limits : Limits
  pub model_turns : ℕ
  pub tool_calls : ℕ
  pub tool_batches : ℕ
  pub observed_tokens : ℕ
  pub token_overflow : Bool
  pub identical_steps : ℕ
  pub last_step : Bytes
  pub retained_tool_bytes : ℕ
  pub canonical_tool_bytes : ℕ

-- The empty reason of the code is `none`.
pub data StopReason : Type 0 where
  completed max_turns max_calls max_tokens stalled failed cancelled : StopReason

unfoldable pub new_run_budget : Limits → ℕ → RunBudget
new_run_budget limits canonical = record {
  limits = limits;
  model_turns = 0;
  tool_calls = 0;
  tool_batches = 0;
  observed_tokens = 0;
  token_overflow = false;
  identical_steps = 0;
  last_step = [];
  retained_tool_bytes = 0;
  canonical_tool_bytes = canonical;
}

unfoldable pub begin_model_turn : RunBudget → Bool × RunBudget
begin_model_turn b =
    if leb b.limits.max_model_turns b.model_turns
    then (false, b)
    else (true, record b { model_turns = b.model_turns + 1 })

-- The next total and whether it overflowed; `none` for a negative report.
unfoldable pub accumulate_observed_tokens : ℕ → ℤ → Option (ℕ × Bool)
accumulate_observed_tokens total (negsuc n) = none
accumulate_observed_tokens total (pos reported) =
    if ltb (max_int64 - reported) total
    then some (max_int64, true)
    else some (total + reported, false)

-- `usage.TotalTokens`, where `none` is one that is not set; a negative report is an error.
unfoldable pub observe_tokens : Option ℤ → RunBudget → Option RunBudget
unfolding accumulate_observed_tokens
observe_tokens none b = some b
observe_tokens (some reported) b = elim (accumulate_observed_tokens b.observed_tokens reported) [
  | none ↦ none
  | some (next, overflow) ↦
      some (record b { observed_tokens = next; token_overflow = b.token_overflow || overflow })
]

unfoldable pub stop_before_tools : ℕ → RunBudget → Option StopReason
stop_before_tools call_count b =
    if leb b.limits.max_model_turns b.model_turns
    then some max_turns
    else if ltb 0 b.limits.max_observed_tokens
        && (b.token_overflow || ltb b.limits.max_observed_tokens b.observed_tokens)
    then some max_tokens
    else if ltb b.limits.max_tool_calls (call_count + b.tool_calls)
    then some max_calls
    else none

unfoldable pub record_tool_call : RunBudget → RunBudget
record_tool_call b = record b { tool_calls = b.tool_calls + 1 }

unfoldable pub record_tool_batch : RunBudget → RunBudget
record_tool_batch b = record b { tool_batches = b.tool_batches + 1 }

-- The test of `finishToolBatch` against `remainingToolBytes`.
unfoldable pub fits_tool_bytes : ℕ → ℕ → RunBudget → Bool
fits_tool_bytes retained canonical b =
    leb (retained + b.retained_tool_bytes) b.limits.max_retained_tool_bytes
    && leb (canonical + b.canonical_tool_bytes) b.limits.max_canonical_tool_bytes

unfoldable pub record_tool_bytes : ℕ → ℕ → RunBudget → RunBudget
record_tool_bytes retained canonical b = record b {
  retained_tool_bytes = b.retained_tool_bytes + retained;
  canonical_tool_bytes = b.canonical_tool_bytes + canonical;
}

-- Whether the run is stalled, and the budget with the step counted.
unfoldable pub record_step : Bytes → RunBudget → Bool × RunBudget
record_step fingerprint b =
    let c : RunBudget =
      if fingerprint == b.last_step
      then record b { identical_steps = b.identical_steps + 1 }
      else record b { identical_steps = 1; last_step = fingerprint } in
    (leb c.limits.max_identical_steps c.identical_steps, c)
