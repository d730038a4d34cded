-- ===== src/Models/Frame.antt =====
-- measureEventFrame of core/models/stream_limits.go: the bytes that an event counts for. The counter is
-- its size; an error is `none`, whatever its text. The text of a time is a parameter. The entries of the
-- metadata are counted in the order of the list; a nil payload, on which the code would fault, is an
-- error, and the shape test before the count refuses it.
pub mod Sum
pub mod Counters
pub mod Counted
use serpe.Base.{
  ℕ, ◌+◌, ◌-◌, ◌*◌, Bool, true, false, not, Option, none, some, List, [], ◌∷◌, ◌==◌, ltb,
  if◌then◌else◌, length, Assoc, Bytes, bytes_eq, bytes_beq, codes, valid_string, max_int64,
}
use serpe.Json.{
  Value, null, boolean, number, string, array, object, Values, nil, cons, Members, no_members,
  member, Outcome, done, failed, object_limits,
}
use serpe.Json.Parse.{parse}
use serpe.Models.{ToolCall}
use serpe.Models.Content.{
  Content, ContentOf, ContentKind, text_kind, image_kind, tool_call_kind, tool_result_kind,
  reasoning_kind, refusal_kind, other_kind, kind_name, Image, ToolResult, Child, content_set,
  data_bytes,
}
use serpe.Models.Event.{
  Event, EventKind, response_start, part_start, part_delta, part_end, response_end, other_event,
  Delta, DeltaKind, text_delta, arguments_delta, reasoning_delta, refusal_delta, media_delta,
  other_delta, delta_set, ResponseInfo, ProviderState, CandidateFinish, Usage,
}

unfoldable pub event_name : EventKind → Bytes
event_name response_start = codes "response_start"
event_name part_start = codes "part_start"
event_name part_delta = codes "part_delta"
event_name part_end = codes "part_end"
event_name response_end = codes "response_end"
event_name (other_event name) = name

unfoldable pub delta_name : DeltaKind → Bytes
delta_name text_delta = codes "text"
delta_name arguments_delta = codes "tool_arguments"
delta_name reasoning_delta = codes "reasoning_summary"
delta_name refusal_delta = codes "refusal"
delta_name media_delta = codes "media_bytes"
delta_name (other_delta name) = name

-- From the size of the counter to its next size.
abbrev pub Count : Type 0
Count = ℕ → Option ℕ

infixl 5 ◌>>◌
abbrev pub ◌>>◌ : Count → Count → Count
(c >> d) n = elim (c n) [ none ↦ none | some m ↦ d m ]

abbrev pub nothing : Count
nothing n = some n

abbrev pub fault : Count
fault n = none

abbrev pub node_bytes : ℕ
node_bytes = 16

abbrev pub is_parsed : Outcome Value → Bool
is_parsed (failed e) = false
is_parsed (done v rest) = true

abbrev pub metadata_entries : Option (Assoc Bytes Bytes) → Assoc Bytes Bytes
metadata_entries none = []
metadata_entries (some entries) = entries

-- A block in a tool result in a tool result has no contents.
abbrev pub count_leaf : Unit {0} → Count
count_leaf tt = nothing

module _ (max : ℕ) where
  -- `eventFrameCounter.add`
  unfoldable pub add : ℕ → Count
  add size n =
      if ltb max_int64 (n + size)
      then none
      else if ltb max (n + size)
      then none
      else some (n + size)

  unfoldable pub count_node : Count
  unfolding add
  count_node = add node_bytes

  unfoldable pub count_string : Bytes → Count
  unfolding count_node
  count_string value = if not (valid_string value) then fault else count_node >> add (length value)

  unfoldable pub count_bytes : Bytes → Count
  unfolding count_node
  count_bytes value = count_node >> add (length value)

  unfoldable mutual
    unfolding count_node count_string

    pub count_value : Value → Count
    count_value null = count_node
    count_value (boolean b) = count_node
    count_value (number lexeme) = count_node >> add (length lexeme)
    count_value (string s) = count_node >> add (length s)
    count_value (array vs) = count_node >> count_values vs
    count_value (object ms) = count_node >> count_members ms

    pub count_values : Values → Count
    count_values nil = nothing
    count_values (cons v vs) = count_value v >> count_values vs

    pub count_members : Members → Count
    count_members no_members = nothing
    count_members (member key v ms) = count_string key >> count_value v >> count_members ms

  abbrev pub count_parsed : Outcome Value → Count
  count_parsed (failed e) = fault
  count_parsed (done v rest) = count_value v

  -- `raw`, whose first test is on the bytes that are left.
  unfoldable pub count_raw : Bytes → Count
  unfolding count_node count_bytes count_value parse
  count_raw value n =
      if value == []
      then count_node n
      else if ltb (max - n) (length value)
      then none
      else if not (is_parsed (parse object_limits value))
      then none
      else (count_bytes value >> count_parsed (parse object_limits value)) n

  unfoldable pub measure_provider_state_frame : Option ProviderState → Count
  unfolding count_node count_string count_raw
  measure_provider_state_frame none = count_node
  measure_provider_state_frame (some state) =
      count_string state.provider >> count_raw state.state_data

  unfoldable pub count_metadata : Assoc Bytes Bytes → Count
  unfolding count_string
  count_metadata [] = nothing
  count_metadata ((key, value) ∷ rest) =
      count_string key >> count_string value >> count_metadata rest

  unfoldable pub measure_response_info_frame : (Option ℕ → Bytes) → Option ResponseInfo → Count
  unfolding count_node count_string count_metadata measure_provider_state_frame
  measure_response_info_frame time_text none = nothing
  measure_response_info_frame time_text (some info) =
      count_node
      >> count_string info.provider
      >> count_string info.id
      >> count_string info.model
      >> count_string info.status
      >> count_string info.request_id
      >> count_string (time_text info.created_at)
      >> count_metadata (metadata_entries info.metadata)
      >> measure_provider_state_frame info.provider_state

  unfoldable pub count_image : Option Image → Count
  unfolding count_string count_bytes
  count_image none = fault
  count_image (some image) =
      count_string image.uri
      >> count_string image.mime_type
      >> count_string image.detail
      >> count_bytes (data_bytes image.image_data)

  unfoldable pub count_call : Option ToolCall → Count
  unfolding count_string count_raw
  count_call none = fault
  count_call (some call) =
      count_string call.id >> count_string call.name >> count_raw call.arguments

  abbrev pub count_text : Option Bytes → Count
  count_text none = fault
  count_text (some text) = count_string text

  module _ {C : Type 0} (count_block : C → Count) where
    unfoldable pub count_blocks : List C → Count
    count_blocks [] = nothing
    count_blocks (block ∷ blocks) = count_block block >> count_blocks blocks

    unfoldable pub count_result : Option (ToolResult C) → Count
    unfolding count_string count_node count_blocks
    count_result none = fault
    count_result (some result) =
        count_string result.call_id
        >> count_string result.name
        >> count_node
        >> count_blocks result.contents

    -- The `switch` of `measureContentFrame`.
    unfoldable pub count_kind : ContentKind → ContentOf C → Count
    unfolding count_string count_image count_call count_result
    count_kind text_kind c = count_text c.text
    count_kind image_kind c = count_image c.image
    count_kind tool_call_kind c = count_call c.tool_call
    count_kind tool_result_kind c = count_result c.tool_result
    count_kind reasoning_kind c = count_text c.reasoning_summary
    count_kind refusal_kind c = count_text c.refusal
    count_kind (other_kind name) c = fault

    unfoldable pub measure_content_frame : ContentOf C → Count
    unfolding count_node count_string count_kind kind_name
    measure_content_frame c = count_node >> count_string (kind_name c.kind) >> count_kind c.kind c

  unfoldable pub count_finishes : List CandidateFinish → Count
  unfolding count_node count_string measure_provider_state_frame
  count_finishes [] = nothing
  count_finishes (finish ∷ finishes) =
      count_node
      >> count_string finish.reason
      >> count_string finish.raw_reason
      >> measure_provider_state_frame finish.provider_state
      >> count_finishes finishes

  unfoldable pub count_part : Content → Count
  unfolding content_set measure_content_frame
  count_part c =
      if content_set c then measure_content_frame (measure_content_frame count_leaf) c else nothing

  unfoldable pub count_delta : Delta → Count
  unfolding delta_set delta_name count_string count_bytes
  count_delta d =
      if delta_set d
      then count_string (delta_name d.kind) >> count_string d.text >> count_bytes d.media
      else nothing

  unfoldable pub count_usage : Option Usage → Count
  unfolding add count_raw
  count_usage none = nothing
  count_usage (some usage) = add (7 * node_bytes) >> count_raw usage.raw

-- `measureEventFrame` behind its shape test.
unfoldable pub event_frame : (Option ℕ → Bytes) → Event → ℕ → Option ℕ
unfolding count_string add count_part count_delta measure_response_info_frame count_finishes
    count_usage event_name
event_frame time_text e max =
    (count_string max (codes "serpe.models.event.v1")
        >> count_string max (event_name e.kind)
        >> count_string max e.provider_event_id
        >> count_string max e.item_id
        >> count_string max e.call_id
        >> add max (3 * node_bytes)
        >> count_part max e.part
        >> count_delta max e.delta
        >> measure_response_info_frame max time_text e.response
        >> count_finishes max e.finishes
        >> count_usage max e.usage)
      0
