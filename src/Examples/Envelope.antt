-- ===== src/Examples/Envelope.antt =====
-- Two calls that the default limits let pass.
use serpe.Base.{ℕ, ◌≤◌, ◌≡◌, ◌↔◌, refl, none, List, [], ◌∷◌, length, All, codes, arith, bytes_beq}
use serpe.Models.{ToolCall}
use serpe.Tools.Limits.{InputLimits}
use serpe.Tools.Envelope.{check_envelope}
use serpe.Tools.Envelope.Accepted.{
  IsBoundedCall, IsUnseen, total_arguments, check_envelope-IsBoundedCall,
}

abbrev limits : InputLimits ℕ
limits = record {
  max_calls = 128;
  max_call_id_bytes = 1024;
  max_tool_name_bytes = 1024;
  max_arguments_bytes = 16777216;
  max_batch_argument_bytes = 16777216;
}

abbrev calls : List ToolCall
calls =
    record { id = codes "c1"; name = codes "read"; arguments = codes "{}" }
    ∷ record { id = codes "c2"; name = codes "read"; arguments = codes "{}" }
    ∷ []

check_envelope-IsBoundedCall_example : (check_envelope calls limits ≡ none) ↔ (
    (1 ≤ length calls)
    × (length calls ≤ 128)
    × All (IsBoundedCall limits) calls
    × IsUnseen [] calls
    × (total_arguments calls ≤ 16777216))
check_envelope-IsBoundedCall_example = check_envelope-IsBoundedCall calls limits (omega arith)

passed : check_envelope calls limits ≡ none
unfolding check_envelope bytes_beq
passed = refl
