-- ===== src/Models/Frame/Sum.antt =====
-- The size of an event as a plain sum, which the counter of core/models/stream_limits.go finds wherever
-- it is within its limit.
use serpe.Base.{
  ℕ, ◌+◌, ◌*◌, Bool, true, false, ◌&&◌, Option, none, some, List, [], ◌∷◌, ◌==◌, if◌then◌else◌,
  length, Assoc, Bytes, bytes_eq, codes, valid_string,
}
use serpe.Json.{
  Value, null, boolean, number, string, array, object, Values, nil, cons, Members, no_members,
  member, Outcome, done, failed, object_limits,
}
use serpe.Json.Parse.{parse}
use serpe.Models.{ToolCall}
use serpe.Models.Content.{
  Content, ContentOf, ContentKind, text_kind, image_kind, tool_call_kind, tool_result_kind,
  reasoning_kind, refusal_kind, other_kind, kind_name, Image, ToolResult, content_set, data_bytes,
}
use serpe.Models.Event.{
  Event, Delta, delta_set, ResponseInfo, ProviderState, CandidateFinish, Usage,
}
use serpe.Models.Frame.{event_name, delta_name, node_bytes, metadata_entries}

-- A size, and whether it can be counted at all.
pub record Cost : Type 0 where
  pub size : ℕ
  pub fine : Bool

infixl 65 ◌⊕◌
abbrev pub ◌⊕◌ : Cost → Cost → Cost
a ⊕ b = record { size = a.size + b.size; fine = a.fine && b.fine }

abbrev pub free : Cost
free = record { size = 0; fine = true }

abbrev pub unfit : Cost
unfit = record { size = 0; fine = false }

abbrev pub sized : ℕ → Cost
sized n = record { size = n; fine = true }

-- Sixteen bytes for each node, and the bytes of a text, which is valid UTF-8.
abbrev pub text_cost : Bytes → Cost
text_cost s = record { size = node_bytes + length s; fine = valid_string s }

abbrev pub bytes_cost : Bytes → Cost
bytes_cost s = sized (node_bytes + length s)

unfoldable mutual
  pub value_cost : Value → Cost
  value_cost null = sized node_bytes
  value_cost (boolean b) = sized node_bytes
  value_cost (number lexeme) = bytes_cost lexeme
  value_cost (string s) = bytes_cost s
  value_cost (array vs) = sized node_bytes ⊕ values_cost vs
  value_cost (object ms) = sized node_bytes ⊕ members_cost ms

  pub values_cost : Values → Cost
  values_cost nil = free
  values_cost (cons v vs) = value_cost v ⊕ values_cost vs

  pub members_cost : Members → Cost
  members_cost no_members = free
  members_cost (member key v ms) = text_cost key ⊕ value_cost v ⊕ members_cost ms

-- JSON counts for its bytes and for the nodes and texts of its value.
abbrev pub parsed_cost : Outcome Value → Cost
parsed_cost (failed e) = unfit
parsed_cost (done v rest) = value_cost v

unfoldable pub raw_cost : Bytes → Cost
unfolding parse value_cost
raw_cost value =
    if value == []
    then sized node_bytes
    else bytes_cost value ⊕ parsed_cost (parse object_limits value)

unfoldable pub state_cost : Option ProviderState → Cost
unfolding raw_cost
state_cost none = sized node_bytes
state_cost (some state) = text_cost state.provider ⊕ raw_cost state.state_data

unfoldable pub metadata_cost : Assoc Bytes Bytes → Cost
metadata_cost [] = free
metadata_cost ((key, value) ∷ rest) = text_cost key ⊕ text_cost value ⊕ metadata_cost rest

unfoldable pub info_cost : (Option ℕ → Bytes) → Option ResponseInfo → Cost
unfolding metadata_cost state_cost
info_cost time_text none = free
info_cost time_text (some info) =
    sized node_bytes
    ⊕ text_cost info.provider
    ⊕ text_cost info.id
    ⊕ text_cost info.model
    ⊕ text_cost info.status
    ⊕ text_cost info.request_id
    ⊕ text_cost (time_text info.created_at)
    ⊕ metadata_cost (metadata_entries info.metadata)
    ⊕ state_cost info.provider_state

abbrev pub option_cost {ℓ} : {A : Type ℓ} → (A → Cost) → Option A → Cost
option_cost f none = unfit
option_cost f (some a) = f a

abbrev pub image_cost : Image → Cost
image_cost image =
    text_cost image.uri
    ⊕ text_cost image.mime_type
    ⊕ text_cost image.detail
    ⊕ bytes_cost (data_bytes image.image_data)

abbrev pub call_cost : ToolCall → Cost
call_cost call = text_cost call.id ⊕ text_cost call.name ⊕ raw_cost call.arguments

module _ {C : Type 0} (block_cost : C → Cost) where
  unfoldable pub blocks_cost : List C → Cost
  blocks_cost [] = free
  blocks_cost (block ∷ blocks) = block_cost block ⊕ blocks_cost blocks

  abbrev pub result_cost : ToolResult C → Cost
  result_cost result =
      text_cost result.call_id
      ⊕ text_cost result.name
      ⊕ sized node_bytes
      ⊕ blocks_cost result.contents

  unfoldable pub kind_cost : ContentKind → ContentOf C → Cost
  unfolding raw_cost blocks_cost
  kind_cost text_kind c = option_cost text_cost c.text
  kind_cost image_kind c = option_cost image_cost c.image
  kind_cost tool_call_kind c = option_cost call_cost c.tool_call
  kind_cost tool_result_kind c = option_cost result_cost c.tool_result
  kind_cost reasoning_kind c = option_cost text_cost c.reasoning_summary
  kind_cost refusal_kind c = option_cost text_cost c.refusal
  kind_cost (other_kind name) c = unfit

  unfoldable pub content_cost : ContentOf C → Cost
  unfolding kind_cost
  content_cost c = sized node_bytes ⊕ text_cost (kind_name c.kind) ⊕ kind_cost c.kind c

abbrev pub leaf_cost : Unit {0} → Cost
leaf_cost tt = free

unfoldable pub finishes_cost : List CandidateFinish → Cost
unfolding state_cost
finishes_cost [] = free
finishes_cost (finish ∷ finishes) =
    sized node_bytes
    ⊕ text_cost finish.reason
    ⊕ text_cost finish.raw_reason
    ⊕ state_cost finish.provider_state
    ⊕ finishes_cost finishes

unfoldable pub part_cost : Content → Cost
unfolding content_cost
part_cost c = if content_set c then content_cost (content_cost leaf_cost) c else free

unfoldable pub delta_cost : Delta → Cost
delta_cost d =
    if delta_set d
    then text_cost (delta_name d.kind) ⊕ text_cost d.text ⊕ bytes_cost d.media
    else free

unfoldable pub usage_cost : Option Usage → Cost
unfolding raw_cost
usage_cost none = free
usage_cost (some usage) = sized (7 * node_bytes) ⊕ raw_cost usage.raw

unfoldable pub event_cost : (Option ℕ → Bytes) → Event → Cost
unfolding part_cost delta_cost info_cost finishes_cost usage_cost
event_cost time_text e =
    text_cost (codes "serpe.models.event.v1")
    ⊕ text_cost (event_name e.kind)
    ⊕ text_cost e.provider_event_id
    ⊕ text_cost e.item_id
    ⊕ text_cost e.call_id
    ⊕ sized (3 * node_bytes)
    ⊕ part_cost e.part
    ⊕ delta_cost e.delta
    ⊕ info_cost time_text e.response
    ⊕ finishes_cost e.finishes
    ⊕ usage_cost e.usage
