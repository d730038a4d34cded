-- ===== src/Examples/Loops.antt =====
-- A batch of two calls that the ledger accepts, and a run of one turn that makes them.
use serpe.Base.{
  true, ◌+◌, ◌*◌, ◌≤◌, ◌≡◌, refl, Bool, false, ◌||◌, some, List, [], ◌∷◌, lookup, has, Bytes,
  bytes_eq, bytes_beq, codes, pos, ltb, nat_eq, arith,
}
use serpe.Loops.Budget.{Limits, RunBudget, completed}
use serpe.Models.{ToolCall, Ids, has_call}
use serpe.Loops.Ledger.{ok, IsFreshBatch, accept, accept_lem, accept_complete}
use serpe.Loops.Machine.{
  closing, close_run, passed, Machine, auto, admit, new_machine, Step, Run, here, next, started,
  turn, streamed, ended, decided, drained, finished, apply_after_model, begin_turn, model_end,
  tool_drain, model_start, run_end, end_stream, finish_tool_batch,
}
use serpe.Loops.Machine.Bounds.{Run-within_limits, stop_reason_stays, has_reason, is_stopped}
use serpe.Loops.Machine.Termination.{Run-terminates, steps_left}

abbrev is_braced : Bytes → Bool
is_braced [] = false
is_braced (c ∷ s) = ltb 122 c

abbrev call : ToolCall
call = record { id = codes "c1"; name = codes "read"; arguments = codes "{}" }

abbrev other : ToolCall
other = record { id = codes "c2"; name = codes "read"; arguments = codes "{}" }

abbrev calls : List ToolCall
calls = call ∷ other ∷ []

abbrev seen : Ids
seen = (codes "c0", tt) ∷ []

abbrev seen_after : Ids
seen_after = (codes "c1", tt) ∷ (codes "c2", tt) ∷ (codes "c0", tt) ∷ []

calls_accepted : accept is_braced calls seen ≡ ok seen_after
unfolding accept bytes_beq
calls_accepted = refl

accept_lem_example :
    IsFreshBatch is_braced seen calls
    × ((id : Bytes) → has id seen_after ≡ (has_call id calls || has id seen))
accept_lem_example = accept_lem is_braced calls seen seen_after calls_accepted

calls-IsFreshBatch : IsFreshBatch is_braced seen calls
unfolding lookup bytes_beq
calls-IsFreshBatch =
    ((λ e. ground arith), refl, refl, refl, ((λ e. ground arith), refl, refl, refl, tt))

accept_complete_example : (out : Ids) × (accept is_braced calls seen ≡ ok out)
accept_complete_example = accept_complete is_braced calls seen calls-IsFreshBatch

abbrev limits : Limits
limits = record {
  max_model_turns = 5;
  max_tool_calls = 10;
  max_observed_tokens = 1000;
  max_identical_steps = 3;
  max_retained_tool_bytes = 5000;
  max_canonical_tool_bytes = 6000;
}

abbrev start : Machine
start = new_machine limits 100 seen auto

abbrev budget_1 : RunBudget
budget_1 = record {
  limits = limits;
  model_turns = 1;
  tool_calls = 0;
  tool_batches = 0;
  observed_tokens = 50;
  token_overflow = false;
  identical_steps = 0;
  last_step = [];
  retained_tool_bytes = 0;
  canonical_tool_bytes = 100;
}

abbrev budget_2 : RunBudget
budget_2 = record budget_1 {
  tool_calls = 2;
  tool_batches = 1;
  identical_steps = 1;
  last_step = codes "read";
  retained_tool_bytes = 300;
  canonical_tool_bytes = 500;
}

abbrev responded : Machine
responded = record start { budget = budget_1; phase = model_end }

abbrev drain : Machine
drain = record responded { seen = seen_after; batch_calls = 2; phase = tool_drain }

abbrev next_turn : Machine
next_turn = record drain { budget = budget_2; batch_calls = 0; phase = model_start }

-- One turn with a batch of two calls.
turn-Run : Run is_braced start 7 next_turn
unfolding new_machine begin_turn end_stream apply_after_model accept finish_tool_batch bytes_beq
turn-Run =
    let streaming = next (next here refl (started refl)) refl (turn refl) in
    let passing = next streaming refl (passed refl) in
    let ending = next passing refl (streamed (some (pos 50)) refl refl) in
    let deciding = next ending refl (ended refl) in
    let draining = next deciding refl (decided (admit calls) refl refl) in
    let after = next draining refl (drained refl) in
    next after refl (finished 2 (codes "read") 300 400 refl (omega arith) refl)

Run-within_limits_example :
    (next_turn.budget.model_turns ≤ 5)
    × (next_turn.budget.tool_calls ≤ 10)
    × (next_turn.budget.retained_tool_bytes ≤ 5000)
    × (next_turn.budget.canonical_tool_bytes ≤ 6000)
    × (has_reason next_turn ≡ is_stopped next_turn)
Run-within_limits_example = Run-within_limits limits 100 seen auto (omega arith) turn-Run

Run-terminates_example : 7 + steps_left next_turn ≤ 3 + 7 * 5
Run-terminates_example = Run-terminates limits 100 seen auto turn-Run

-- The stop has been decided, and the run is closed.
abbrev finishing : Machine
finishing = record responded { stop_reason = some completed; phase = run_end }

abbrev closed_run : Machine
closed_run = record finishing { is_closed = true }

last-Step : Step is_braced finishing closed_run
unfolding new_machine close_run
last-Step = closing

stop_reason_stays_example : closed_run.stop_reason ≡ some completed
stop_reason_stays_example = stop_reason_stays completed last-Step refl
