-- ===== src/Models/Frame/Counted.antt =====
-- The counter of core/models/stream_limits.go finds the plain sum wherever it is within its limit.
use serpe.Base.{
  ℕ, ◌*◌, ◌≤◌, ◌≡◌, inl, inr, ◌&&◌, Option, none, some, List, [], ◌∷◌, leb, if◌then◌else◌, Assoc,
  Bytes, bytes_eq, codes, max_int64, Bool-cases,
}
use serpe.Models.{ToolCall}
use serpe.Models.Content.{
  Content, ContentOf, ContentKind, text_kind, image_kind, tool_call_kind, tool_result_kind,
  reasoning_kind, refusal_kind, other_kind, kind_name, Image, ToolResult, content_set, data_bytes,
}
use serpe.Models.Event.{
  Event, Delta, delta_set, ResponseInfo, ProviderState, CandidateFinish, Usage,
}
use serpe.Models.Frame.{
  event_name, delta_name, Count, node_bytes, measure_provider_state_frame, count_metadata,
  metadata_entries, measure_response_info_frame, count_image, count_call, count_text, count_blocks,
  count_result, count_kind, measure_content_frame, count_leaf, count_finishes, count_part,
  count_delta, count_usage, event_frame,
}
use serpe.Models.Frame.Sum.{
  Cost, text_cost, state_cost, metadata_cost, info_cost, option_cost, image_cost, call_cost,
  blocks_cost, result_cost, kind_cost, content_cost, leaf_cost, finishes_cost, part_cost,
  delta_cost, usage_cost, event_cost,
}
use serpe.Models.Frame.Counters.{
  Sums, from_zero, ◌>+◌, add-Sums, nothing-Sums, fault-Sums, node-Sums, bytes-Sums, string-Sums,
  raw-Sums,
}

module _ (max : ℕ) (small : max ≤ max_int64) where
  state-Sums :
      (state : Option ProviderState)
      → Sums max (measure_provider_state_frame max state) (state_cost state)
  unfolding measure_provider_state_frame state_cost
  state-Sums none = node-Sums max small
  state-Sums (some state) =
      string-Sums max small state.provider >+ raw-Sums max small state.state_data

  metadata-Sums :
      (entries : Assoc Bytes Bytes) → Sums max (count_metadata max entries) (metadata_cost entries)
  unfolding count_metadata metadata_cost
  metadata-Sums [] = nothing-Sums max small
  metadata-Sums ((key, value) ∷ rest) =
      string-Sums max small key >+ string-Sums max small value >+ metadata-Sums rest

  info-Sums :
      (time_text : Option ℕ → Bytes) (info : Option ResponseInfo)
      → Sums max (measure_response_info_frame max time_text info) (info_cost time_text info)
  unfolding measure_response_info_frame info_cost
  info-Sums time_text none = nothing-Sums max small
  info-Sums time_text (some info) =
      node-Sums max small
      >+ string-Sums max small info.provider
      >+ string-Sums max small info.id
      >+ string-Sums max small info.model
      >+ string-Sums max small info.status
      >+ string-Sums max small info.request_id
      >+ string-Sums max small (time_text info.created_at)
      >+ metadata-Sums (metadata_entries info.metadata)
      >+ state-Sums info.provider_state

  text-Sums : (text : Option Bytes) → Sums max (count_text max text) (option_cost text_cost text)
  text-Sums none = fault-Sums max small
  text-Sums (some text) = string-Sums max small text

  image-Sums :
      (image : Option Image) → Sums max (count_image max image) (option_cost image_cost image)
  unfolding count_image
  image-Sums none = fault-Sums max small
  image-Sums (some image) =
      string-Sums max small image.uri
      >+ string-Sums max small image.mime_type
      >+ string-Sums max small image.detail
      >+ bytes-Sums max small (data_bytes image.image_data)

  call-Sums : (call : Option ToolCall) → Sums max (count_call max call) (option_cost call_cost call)
  unfolding count_call
  call-Sums none = fault-Sums max small
  call-Sums (some call) =
      string-Sums max small call.id
      >+ string-Sums max small call.name
      >+ raw-Sums max small call.arguments

  module _ {C : Type 0} (count_block : C → Count) (block_cost : C → Cost)
      (block-Sums : (block : C) → Sums max (count_block block) (block_cost block)) where
    blocks-Sums :
        (blocks : List C)
        → Sums max (count_blocks max count_block blocks) (blocks_cost block_cost blocks)
    unfolding count_blocks blocks_cost
    blocks-Sums [] = nothing-Sums max small
    blocks-Sums (block ∷ blocks) = block-Sums block >+ blocks-Sums blocks

    result-Sums :
        (result : Option (ToolResult C))
        → Sums max
            (count_result max count_block result)
            (option_cost (result_cost block_cost) result)
    unfolding count_result
    result-Sums none = fault-Sums max small
    result-Sums (some result) =
        string-Sums max small result.call_id
        >+ string-Sums max small result.name
        >+ node-Sums max small
        >+ blocks-Sums result.contents

    kind-Sums :
        (kind : ContentKind) (c : ContentOf C)
        → Sums max (count_kind max count_block kind c) (kind_cost block_cost kind c)
    unfolding count_kind kind_cost
    kind-Sums text_kind c = text-Sums c.text
    kind-Sums image_kind c = image-Sums c.image
    kind-Sums tool_call_kind c = call-Sums c.tool_call
    kind-Sums tool_result_kind c = result-Sums c.tool_result
    kind-Sums reasoning_kind c = text-Sums c.reasoning_summary
    kind-Sums refusal_kind c = text-Sums c.refusal
    kind-Sums (other_kind name) c = fault-Sums max small

    content-Sums :
        (c : ContentOf C)
        → Sums max (measure_content_frame max count_block c) (content_cost block_cost c)
    unfolding measure_content_frame content_cost
    content-Sums c =
        node-Sums max small >+ string-Sums max small (kind_name c.kind) >+ kind-Sums c.kind c

  finishes-Sums :
      (finishes : List CandidateFinish)
      → Sums max (count_finishes max finishes) (finishes_cost finishes)
  unfolding count_finishes finishes_cost
  finishes-Sums [] = nothing-Sums max small
  finishes-Sums (finish ∷ finishes) =
      node-Sums max small
      >+ string-Sums max small finish.reason
      >+ string-Sums max small finish.raw_reason
      >+ state-Sums finish.provider_state
      >+ finishes-Sums finishes

  leaf-Sums : (u : Unit {0}) → Sums max (count_leaf u) (leaf_cost u)
  leaf-Sums tt = nothing-Sums max small

  part-Sums : (c : Content) → Sums max (count_part max c) (part_cost c)
  unfolding count_part part_cost
  part-Sums c = elim (Bool-cases (content_set c)) [
    | inl given ↦ record {
      from = λ n le. rw given (
          (content-Sums (measure_content_frame max count_leaf) (content_cost leaf_cost)
              (content-Sums count_leaf leaf_cost leaf-Sums) c).from
            n le);
    }
    | inr missing ↦ record { from = λ n le. rw missing ((nothing-Sums max small).from n le) }
  ]

  delta-Sums : (d : Delta) → Sums max (count_delta max d) (delta_cost d)
  unfolding count_delta delta_cost
  delta-Sums d = elim (Bool-cases (delta_set d)) [
    | inl given ↦ record {
      from = λ n le. rw given (
          (string-Sums max small (delta_name d.kind)
              >+ string-Sums max small d.text
              >+ bytes-Sums max small d.media).from
            n le);
    }
    | inr missing ↦ record { from = λ n le. rw missing ((nothing-Sums max small).from n le) }
  ]

  usage-Sums : (usage : Option Usage) → Sums max (count_usage max usage) (usage_cost usage)
  unfolding count_usage usage_cost
  usage-Sums none = nothing-Sums max small
  usage-Sums (some usage) = add-Sums max small (7 * node_bytes) >+ raw-Sums max small usage.raw

-- The counter with its early ends and its tests for overflow finds the plain sum: an event whose texts
-- are valid UTF-8 and whose raw JSON parses counts for the sum of its nodes and bytes where that is
-- within the limit, which is an int64, and every other event is refused.
pub event_frame-eq-cost :
    (time_text : Option ℕ → Bytes) (e : Event) (max : ℕ)
    → max ≤ max_int64
    → event_frame time_text e max ≡ (
        if (event_cost time_text e).fine && leb (event_cost time_text e).size max
        then some (event_cost time_text e).size
        else none)
unfolding event_frame event_cost
event_frame-eq-cost time_text e max small =
    let s = string-Sums max small in
    from_zero (
      s (codes "serpe.models.event.v1")
      >+ s (event_name e.kind)
      >+ s e.provider_event_id
      >+ s e.item_id
      >+ s e.call_id
      >+ add-Sums max small (3 * node_bytes)
      >+ part-Sums max small e.part
      >+ delta-Sums max small e.delta
      >+ info-Sums max small time_text e.response
      >+ finishes-Sums max small e.finishes
      >+ usage-Sums max small e.usage)
