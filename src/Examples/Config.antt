-- ===== src/Examples/Config.antt =====
-- Limits that are normalized, and a request that is contracted until it fits.
use serpe.Base.{
  ◌≤◌, ◌+◌, arith, mebibytes, ℕ, ◌-◌, ◌*◌, ◌≡◌, refl, true, false, Option, some, [], ◌∷◌, nat_eq, ℤ,
  pos, ◌⊎◌, codes, bytes_beq,
}
use serpe.Loops.Config.{RunLimits, ok, normalize_limits}
use serpe.Loops.Configured.{budget_limits, normalize_limits-run}
use serpe.Loops.Machine.{
  Machine, auto, model_start, new_machine, begin_turn, Run, here, next, started, turn,
}
use serpe.Loops.Config.Normal.{IsNormal}
use serpe.Loops.Config.Accepted.{normalize_limits-IsNormal}
use serpe.Loops.Policy as Policy
use serpe.Loops.Policy.{ToolResultPolicy, zero_policy, normalize_tool_result_policy}
use serpe.Loops.Policy.Normal.{IsNormalPolicy, normalize_tool_result_policy-IsNormalPolicy}
use serpe.Loops.Request as Request
use serpe.Loops.Request.{
  ProjectionPlan, ProjectionInfo, first_plan, contraction_plans, prepare_model_request,
}
use serpe.Loops.Request.Fitting.{FirstFit, prepare_model_request-FirstFit}

abbrev asked : RunLimits ℤ
asked = record {
  max_model_turns = pos 0;
  max_tool_calls = pos 0;
  max_observed_tokens = pos 0;
  max_identical_steps = pos 0;
  stream = record {
    max_event_bytes = pos 0;
    max_turn_bytes = pos 0;
    max_events = pos 0;
    max_candidates = pos 0;
    max_parts = pos 0;
    max_metadata_entries = pos 0;
    max_tool_calls = pos 0;
  };
  max_session_message_json_bytes = pos 0;
  max_retained_tool_bytes = pos 8192;
  max_canonical_tool_bytes = pos 0;
  context = record {
    max_tool_call_argument_context_bytes = pos 0;
    max_tool_exchanges = pos 4;
    max_tool_text_context_bytes = pos 0;
    max_tool_image_context_bytes = pos 0;
  };
}

abbrev given : RunLimits ℕ
given = record {
  max_model_turns = 32;
  max_tool_calls = 20;
  max_observed_tokens = 0;
  max_identical_steps = 3;
  stream = record {
    max_event_bytes = mebibytes 2;
    max_turn_bytes = mebibytes 32;
    max_events = 65536;
    max_candidates = 8;
    max_parts = 4096;
    max_metadata_entries = 256;
    max_tool_calls = 128;
  };
  max_session_message_json_bytes = mebibytes 47;
  max_retained_tool_bytes = 8192;
  max_canonical_tool_bytes = mebibytes 256;
  context = record {
    max_tool_call_argument_context_bytes = mebibytes 16;
    max_tool_exchanges = 4;
    max_tool_text_context_bytes = 262144;
    max_tool_image_context_bytes = mebibytes 7;
  };
}

limits_accepted : normalize_limits asked (some 20) ≡ ok given
unfolding normalize_limits
limits_accepted = refl

normalize_limits-IsNormal_example : IsNormal (some 20) given
normalize_limits-IsNormal_example = normalize_limits-IsNormal asked (some 20) given limits_accepted

-- A request is the number of the groups that its plan keeps, each of 100 bytes.
abbrev planned : ProjectionPlan → Request.Result (ℕ × ProjectionInfo)
planned p =
    Request.ok (5 - p.drop_oldest_retained, record { retained_groups = 5; dropped_groups = 0 })

abbrev bytes : ℕ → Option ℤ
bytes n = some (pos (100 * n))

two_dropped : prepare_model_request planned bytes (λ n. false) true (some 350) ≡ Request.ok (3, 300)
unfolding prepare_model_request
two_dropped = refl

prepare_model_request-FirstFit_example :
    FirstFit planned bytes
      (λ n. false)
      350
      (first_plan true
        ∷ contraction_plans
            (first_plan true)
            (record { retained_groups = 5; dropped_groups = 0 })
            true)
      (prepare_model_request planned bytes (λ n. false) true (some 350))
prepare_model_request-FirstFit_example =
    prepare_model_request-FirstFit planned bytes (λ n. false) 350 true 5
      (record { retained_groups = 5; dropped_groups = 0 }) refl refl

abbrev images : ToolResultPolicy ℤ
images = record {
  inline_images = true;
  mime_types = codes "image/png" ∷ codes "image/gif" ∷ [];
  image_details = codes "low" ∷ [];
  max_raw_image_bytes = pos 4096;
  max_images = pos 2;
  max_width = pos 0;
  max_height = pos 8192;
  max_pixels = pos 1000;
}

abbrev images_given : ToolResultPolicy ℕ
images_given = record {
  inline_images = true;
  mime_types = codes "image/png" ∷ codes "image/gif" ∷ [];
  image_details = codes "low" ∷ [];
  max_raw_image_bytes = 4096;
  max_images = 2;
  max_width = 0;
  max_height = 8192;
  max_pixels = 1000;
}

policy_accepted : normalize_tool_result_policy images ≡ Policy.ok images_given
unfolding normalize_tool_result_policy bytes_beq
policy_accepted = refl

normalize_tool_result_policy-IsNormalPolicy_example :
    ((true ≡ false) × (images_given ≡ zero_policy)) ⊎ ((true ≡ true) × IsNormalPolicy images_given)
normalize_tool_result_policy-IsNormalPolicy_example =
    normalize_tool_result_policy-IsNormalPolicy images images_given policy_accepted

-- A run under these limits begins its first turn.
abbrev begun : Machine
begun = record (new_machine (budget_limits given) 0 [] auto) { phase = model_start }

begun-Run : Run (λ s. true) (new_machine (budget_limits given) 0 [] auto) 2 (begin_turn begun)
unfolding new_machine
begun-Run = next (next here refl (started refl)) refl (turn refl)

normalize_limits-run_example :
    (2 ≤ 3 + 7 * 32)
    × ((begin_turn begun).budget.model_turns ≤ 32)
    × ((begin_turn begun).budget.tool_calls ≤ 20)
    × ((begin_turn begun).budget.tool_calls ≤ 20)
    × ((begin_turn begun).budget.retained_tool_bytes ≤ mebibytes 64)
    × ((begin_turn begun).budget.canonical_tool_bytes ≤ mebibytes 256)
normalize_limits-run_example =
    normalize_limits-run asked (some 20) given 0 [] auto limits_accepted (omega arith) begun-Run
