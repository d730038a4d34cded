-- ===== src/Examples/Limits.antt =====
-- The defaults, and a batch of three calls under a tighter limit.
use serpe.Base.{ℕ, ◌≤◌, ◌≡◌, refl, ℤ, pos, some, List, [], ◌∷◌, length, All, arith, Option}
use serpe.Tools.Limits.{Config, InputLimits, OutputLimits, ok, normalize_config}
use serpe.Tools.Limits.Normal.{IsNormal, as_given, normalize_config-IsNormal}
use serpe.Tools.Quota.{ok, start_quotas, apply_start_options, allocate_call_quotas}
use serpe.Tools.Quota.Shares.{
  IsShare, total_framed, start_quotas-All, allocate_call_quotas_complete,
}

abbrev unset_input : InputLimits ℤ
unset_input = record {
  max_calls = pos 0;
  max_call_id_bytes = pos 0;
  max_tool_name_bytes = pos 0;
  max_arguments_bytes = pos 0;
  max_batch_argument_bytes = pos 4096;
}

abbrev unset_output : OutputLimits ℤ
unset_output = record {
  max_blocks = pos 0;
  max_text_bytes = pos 0;
  max_image_bytes = pos 0;
  max_image_width = pos 0;
  max_image_height = pos 0;
  max_image_pixels = pos 0;
  max_framed_bytes = pos 2048;
  max_batch_framed_bytes = pos 0;
  max_metadata_bytes = pos 0;
}

abbrev configured : Config ℤ
configured = record { max_parallel = pos 0; input = unset_input; output = unset_output }

abbrev output : OutputLimits ℕ
output = record {
  max_blocks = 64;
  max_text_bytes = 65536;
  max_image_bytes = 7340032;
  max_image_width = 8192;
  max_image_height = 8192;
  max_image_pixels = 40000000;
  max_framed_bytes = 2048;
  max_batch_framed_bytes = 8388608;
  max_metadata_bytes = 127;
}

abbrev normalized : Config ℕ
normalized = record {
  max_parallel = 8;
  input = record {
    max_calls = 128;
    max_call_id_bytes = 1024;
    max_tool_name_bytes = 1024;
    max_arguments_bytes = 16777216;
    max_batch_argument_bytes = 4096;
  };
  output = output;
}

accepted : normalize_config 8 configured ≡ ok normalized
unfolding normalize_config
accepted = refl

normalize_config-IsNormal_example :
    IsNormal normalized × (normalize_config 8 (as_given normalized) ≡ ok normalized)
normalize_config-IsNormal_example = normalize_config-IsNormal 8 configured normalized accepted

-- The limit of the batch leaves a remainder of one byte for the first call.
abbrev options : List (Option ℤ)
options = some (pos 4000) ∷ []

abbrev tight : ℕ → OutputLimits ℕ
tight n = record output { max_framed_bytes = n; max_batch_framed_bytes = 4000 }

abbrev quotas : List (OutputLimits ℕ)
quotas = tight 1334 ∷ tight 1333 ∷ tight 1333 ∷ []

allocated : start_quotas options output 3 ≡ ok quotas
unfolding start_quotas
allocated = refl

start_quotas-All_example :
    (length quotas ≡ 3) × All (IsShare 2048) quotas × (total_framed quotas ≤ 8388608)
start_quotas-All_example = start_quotas-All options output 3 quotas (omega arith) allocated

applied : apply_start_options options output 3 ≡ ok (tight 2048)
unfolding apply_start_options
applied = refl

allocate_call_quotas_complete_example :
    (qs : List (OutputLimits ℕ)) × (allocate_call_quotas (tight 2048) 3 ≡ ok qs)
allocate_call_quotas_complete_example =
    allocate_call_quotas_complete options output (tight 2048) 3 (omega arith) applied
