-- ===== src/Models/Reducer.antt =====
-- core/models/reducer.go: the reduction of a stream of events to a response. `r.parts` and the parts
-- of a candidate hold the same pointers, so a candidate keeps the indexes of its parts here, and the
-- parts stand in `r.parts` alone. A reducer that has refused an event is not used again: what the
-- refused event had already written is not kept.
pub mod Parts
pub mod Finish
pub mod Apply
pub mod Payload
pub mod Change
pub mod History
pub mod Written
pub mod Keys
pub mod Tidy
pub mod Ordered
pub use serpe.Base.{ok, err}
use serpe.Base.{
  Fallible, ℕ, suc, ◌≡◌, Bool, true, false, not, ◌&&◌, ◌||◌, Option, none, some, List, [], ◌∷◌,
  ◌++◌, ◌==◌, ltb, if◌then◌else◌, is_some, length, Assoc, lookup, has, put, all_entries, pair_eq,
  Bytes, bytes_eq, codes, nat_eq, ℤ, pos, negsuc,
}
use mathlib.Core.Option
use serpe.Models.{ToolCall}
use serpe.Models.Content.{
  Content, ContentError, ContentKind, text_kind, image_kind, tool_call_kind, tool_result_kind,
  reasoning_kind, refusal_kind, other_kind, Image, Test, validate, clone, data_bytes,
}
use serpe.Models.Event.{
  Event, EventKind, response_start, part_start, part_delta, part_end, response_end, other_event,
  Delta, DeltaKind, text_delta, arguments_delta, reasoning_delta, refusal_delta, media_delta,
  other_delta, ProviderState, Usage, ResponseInfo, CandidateFinish, ShapeError,
  validate_event_shape,
}

-- `partAccumulator`
pub record Part : Type 0 where
  pub content : Content
  pub text : Bytes
  pub args : Bytes
  pub media : Bytes
  pub ended : Bool

-- `candidateAccumulator`
pub record CandidateParts : Type 0 where
  pub parts : Assoc ℕ (Unit {0})
  pub finish : Bytes
  pub raw_finish : Bytes
  pub provider_state : Option ProviderState

pub record Candidate : Type 0 where
  pub index : ℕ
  pub contents : List Content
  pub finish_reason : Bytes
  pub raw_finish_reason : Bytes
  pub provider_state : Option ProviderState

pub record Response : Type 0 where
  pub provider : Bytes
  pub id : Bytes
  pub model : Bytes
  pub status : Bytes
  pub candidates : List Candidate
  pub usage : Usage
  pub provider_state : Option ProviderState
  pub request_id : Bytes
  pub created_at : Option ℕ
  pub metadata : Option (Assoc Bytes Bytes)

-- A candidate index and a part index.
abbrev pub PartKey : Type 0
PartKey = ℕ × ℕ

-- `response` is read once `started` is set.
pub record Reducer : Type 0 where
  pub provider : Bytes
  pub started : Bool
  pub ended : Bool
  pub response : Response
  pub candidates : Assoc ℕ CandidateParts
  pub parts : Assoc PartKey Part

pub data ReduceError : Type 0 where
  invalid_shape : ShapeError → ReduceError
  after_end duplicate_start not_started duplicate_part part_missing part_ended : ReduceError
  delta_mismatch arguments_twice open_part provider_changed : ReduceError
  invalid_part : ContentError → ReduceError

abbrev pub Result {ℓ} : Type ℓ → Type ℓ
Result A = Fallible ReduceError A

abbrev pub no_usage : Usage
no_usage = record {
  input_tokens = none;
  output_tokens = none;
  cached_input_tokens = none;
  reasoning_tokens = none;
  tool_use_tokens = none;
  total_tokens = none;
  raw = [];
}

abbrev pub no_response : Response
no_response = record {
  provider = [];
  id = [];
  model = [];
  status = [];
  candidates = [];
  usage = no_usage;
  provider_state = none;
  request_id = [];
  created_at = none;
  metadata = none;
}

unfoldable pub new_reducer : Bytes → Reducer
new_reducer provider = record {
  provider = provider;
  started = false;
  ended = false;
  response = no_response;
  candidates = [];
  parts = [];
}

-- An index that is not negative.
abbrev pub index : ℤ → ℕ
index (pos n) = n
index (negsuc n) = 0

abbrev pub part_key : Event → PartKey
part_key e = (index e.candidate_index, index e.part_index)

-- `if new != "" { old = new }`
abbrev pub or_keep : Bytes → Bytes → Bytes
or_keep new old = if new == [] then old else new

abbrev pub or_keep_some {ℓ} : {A : Type ℓ} → Option A → Option A → Option A
or_keep_some none old = old
or_keep_some (some new) old = some new

abbrev pub finish_unknown : Bytes
finish_unknown = codes "unknown"

abbrev pub no_candidate : Bytes → CandidateParts
no_candidate finish = record { parts = []; finish = finish; raw_finish = []; provider_state = none }

-- The candidate of an index, a new one if there is none.
abbrev pub candidate_or : CandidateParts → Option CandidateParts → CandidateParts
candidate_or new none = new
candidate_or new (some candidate) = candidate
