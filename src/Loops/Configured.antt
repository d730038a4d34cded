-- ===== src/Loops/Configured.antt =====
-- A run of runtime/loops/stream.go under the limits that normalizeLimits of runtime/loops/config.go has
-- accepted. The budget of a run reads some of them.
use serpe.Base.{ℕ, ◌+◌, ◌*◌, ◌≤◌, ◌≡◌, Bool, Option, none, some, Bytes, ℤ, mebibytes, arith}
use serpe.Models.{Ids}
use serpe.Loops.Budget.{Limits}
use serpe.Loops.Config.{RunLimits, ok, normalize_limits}
use serpe.Loops.Config.Normal.{IsNormal}
use serpe.Loops.Config.Accepted.{normalize_limits-IsNormal}
use serpe.Loops.Machine.{Machine, ToolChoice, new_machine, Run}
use serpe.Loops.Machine.Bounds.{Run-within_limits}
use serpe.Loops.Machine.Termination.{Run-terminates}

abbrev pub budget_limits : RunLimits ℕ → Limits
budget_limits l = record {
  max_model_turns = l.max_model_turns;
  max_tool_calls = l.max_tool_calls;
  max_observed_tokens = l.max_observed_tokens;
  max_identical_steps = l.max_identical_steps;
  max_retained_tool_bytes = l.max_retained_tool_bytes;
  max_canonical_tool_bytes = l.max_canonical_tool_bytes;
}

-- No more calls than an executor takes in one batch.
abbrev pub CallsFit : Option ℕ → ℕ → Type 0
CallsFit none calls = Unit
CallsFit (some most) calls = calls ≤ most

-- Whatever is asked for, a run under the limits that are accepted, from a history whose bytes fit, makes
-- at most seven calls of `step` for each of its model turns and three more, apart from the calls that
-- pass on one event of a streaming response or of a batch at work; it makes no more tool calls than its
-- limit and than an executor takes in one batch, and keeps at most 64 MiB of tool output, and 256 MiB
-- with what the history holds.
pub normalize_limits-run :
    {o : Bytes → Bool} (asked : RunLimits ℤ) (executor : Option ℕ) (l : RunLimits ℕ) (canonical : ℕ)
    (seen : Ids) (choice : ToolChoice) {n : ℕ} {s : Machine}
    → normalize_limits asked executor ≡ ok l
    → canonical ≤ l.max_canonical_tool_bytes
    → Run o (new_machine (budget_limits l) canonical seen choice) n s
    → (n ≤ 3 + 7 * l.max_model_turns)
      × (s.budget.model_turns ≤ l.max_model_turns)
      × (s.budget.tool_calls ≤ l.max_tool_calls)
      × CallsFit executor s.budget.tool_calls
      × (s.budget.retained_tool_bytes ≤ mebibytes 64)
      × (s.budget.canonical_tool_bytes ≤ mebibytes 256)
normalize_limits-run asked executor l canonical seen choice accepted fits run =
    let normal = normalize_limits-IsNormal asked executor l accepted in
    let (turns, calls, retained, bytes, reason) =
      Run-within_limits (budget_limits l) canonical seen choice fits run in
    (
      omega (arith, Run-terminates (budget_limits l) canonical seen choice run),
      turns,
      calls,
      calls_fit executor normal calls,
      omega (arith, retained, normal.retained.1),
      omega (arith, bytes, normal.canonical.1),
    )
  where
    calls_fit :
        (executor : Option ℕ)
        → IsNormal executor l
        → {c : ℕ} → c ≤ l.max_tool_calls
        → CallsFit executor c
    calls_fit none normal le = tt
    calls_fit (some most) normal le = omega (arith, le, normal.fits.0)
