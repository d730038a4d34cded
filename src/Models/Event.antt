-- ===== src/Models/Event.antt =====
-- core/models/event.go and event_shape.go: the events of a model stream, and which payload goes with
-- which kind of event. `validatePartStart` is that of reducer.go. An int is an integer until its sign
-- has been tested; a time is a number, and `none` is the zero time.
use serpe.Base.{
  ℕ, Bool, true, false, not, ◌&&◌, ◌||◌, Option, none, some, List, [], ◌∷◌, ◌==◌, if◌then◌else◌,
  is_some, length, Assoc, Bytes, bytes_eq, nat_eq, ℤ, pos, negsuc,
}
use serpe.Models.{ToolCall}
use serpe.Models.Content.{
  Content, ContentKind, text_kind, image_kind, tool_call_kind, tool_result_kind, reasoning_kind,
  refusal_kind, other_kind, Image, Test, union_count, content_set, validate_image,
}

pub data EventKind : Type 0 where
  response_start part_start part_delta part_end response_end : EventKind
  other_event : Bytes → EventKind

abbrev pub is_start : EventKind → Bool
is_start part_start = true
is_start _ = false

pub data DeltaKind : Type 0 where
  text_delta arguments_delta reasoning_delta refusal_delta media_delta : DeltaKind
  -- any other string, and the empty one
  other_delta : Bytes → DeltaKind

pub record Delta : Type 0 where
  pub kind : DeltaKind
  pub text : Bytes
  pub media : Bytes

pub record ProviderState : Type 0 where
  pub provider : Bytes
  pub state_data : Bytes

pub record Usage : Type 0 where
  pub input_tokens : Option ℤ
  pub output_tokens : Option ℤ
  pub cached_input_tokens : Option ℤ
  pub reasoning_tokens : Option ℤ
  pub tool_use_tokens : Option ℤ
  pub total_tokens : Option ℤ
  pub raw : Bytes

pub record ResponseInfo : Type 0 where
  pub provider : Bytes
  pub id : Bytes
  pub model : Bytes
  pub status : Bytes
  pub request_id : Bytes
  pub created_at : Option ℕ
  pub metadata : Option (Assoc Bytes Bytes)
  pub provider_state : Option ProviderState

pub record CandidateFinish : Type 0 where
  pub candidate_index : ℤ
  pub reason : Bytes
  pub raw_reason : Bytes
  pub provider_state : Option ProviderState

pub record Event : Type 0 where
  pub kind : EventKind
  pub candidate_index : ℤ
  pub part_index : ℤ
  pub part : Content
  pub delta : Delta
  pub response : Option ResponseInfo
  pub finishes : List CandidateFinish
  pub usage : Option Usage
  pub provider_event_id : Bytes
  pub item_id : Bytes
  pub call_id : Bytes

pub data ShapeError : Type 0 where
  response_missing foreign_payload negative_index response_payload unexpected_delta : ShapeError
  unexpected_part unknown_delta negative_finish unknown_event invalid_part_start : ShapeError

abbrev pub is_negative : ℤ → Bool
is_negative (pos n) = false
is_negative (negsuc n) = true

-- `i != 0`
abbrev pub is_nonzero : ℤ → Bool
is_nonzero (pos n) = not (n == 0)
is_nonzero (negsuc n) = true

abbrev is_delta_kind_set : DeltaKind → Bool
is_delta_kind_set (other_delta name) = not (name == [])
is_delta_kind_set _ = true

unfoldable pub delta_set : Delta → Bool
delta_set d = is_delta_kind_set d.kind || not (d.text == []) || not (d.media == [])

unfoldable pub validate_delta_shape : Delta → Bool
validate_delta_shape d = elim d.kind [
  | media_delta ↦ d.text == []
  | other_delta name ↦ false
  | _ ↦ d.media == []
]

module _ (is_object has_scheme : Test) where
  -- Whether `validatePartStart` returns nil.
  unfoldable pub starts_image : Image → Bool
  unfolding validate_image
  starts_image image =
      if not (image.uri == [])
      then not (is_some (validate_image has_scheme image))
      else not (image.mime_type == [])

  unfoldable pub starts_call : ToolCall → Bool
  starts_call call = not (call.name == []) && (call.arguments == [] || is_object call.arguments)

  unfoldable pub starts_kind : ContentKind → Content → Bool
  unfolding starts_image starts_call
  starts_kind text_kind c = is_some c.text
  starts_kind image_kind c = elim c.image [ none ↦ false | some image ↦ starts_image image ]
  starts_kind tool_call_kind c = elim c.tool_call [ none ↦ false | some call ↦ starts_call call ]
  starts_kind reasoning_kind c = is_some c.reasoning_summary
  starts_kind refusal_kind c = is_some c.refusal
  starts_kind tool_result_kind c = false
  starts_kind (other_kind name) c = false

  unfoldable pub validate_part_start : Content → Bool
  unfolding union_count starts_kind
  validate_part_start c = union_count c == 1 && starts_kind c.kind c

  unfoldable pub part_payload_shape : Event → Option ShapeError
  part_payload_shape e =
      if is_negative e.candidate_index || is_negative e.part_index
      then some negative_index
      else if is_some e.response || not (length e.finishes == 0) || is_some e.usage
      then some response_payload
      else none

  -- What neither end of a response may hold.
  unfoldable pub has_part_payload : Event → Bool
  unfolding content_set delta_set
  has_part_payload e =
      is_nonzero e.candidate_index
      || is_nonzero e.part_index
      || content_set e.part
      || delta_set e.delta
      || not (e.item_id == [])
      || not (e.call_id == [])

  unfoldable pub any_negative : List CandidateFinish → Bool
  any_negative [] = false
  any_negative (f ∷ fs) = is_negative f.candidate_index || any_negative fs

  -- The `switch` of `validateEventShape`; `none` is a nil error.
  unfoldable pub shape_of : EventKind → Event → Option ShapeError
  unfolding has_part_payload part_payload_shape validate_part_start validate_delta_shape
      any_negative
  shape_of response_start e =
      if not (is_some e.response)
      then some response_missing
      else if has_part_payload e || not (length e.finishes == 0) || is_some e.usage
      then some foreign_payload
      else none
  shape_of part_start e = elim (part_payload_shape e) [
    | some error ↦ some error
    | none ↦
        if delta_set e.delta
        then some unexpected_delta
        else if not (validate_part_start e.part)
        then some invalid_part_start
        else none
  ]
  shape_of part_delta e = elim (part_payload_shape e) [
    | some error ↦ some error
    | none ↦
        if content_set e.part
        then some unexpected_part
        else if not (validate_delta_shape e.delta)
        then some unknown_delta
        else none
  ]
  shape_of part_end e = elim (part_payload_shape e) [
    | some error ↦ some error
    | none ↦ if content_set e.part || delta_set e.delta then some unexpected_part else none
  ]
  shape_of response_end e =
      if not (is_some e.response)
      then some response_missing
      else if has_part_payload e
      then some foreign_payload
      else if any_negative e.finishes
      then some negative_finish
      else none
  shape_of (other_event name) e = some unknown_event

  unfoldable pub validate_event_shape : Event → Option ShapeError
  unfolding shape_of
  validate_event_shape e = shape_of e.kind e

abbrev pub is_part_event : EventKind → Bool
is_part_event part_start = true
is_part_event part_delta = true
is_part_event part_end = true
is_part_event _ = false
