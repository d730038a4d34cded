-- ===== src/Models/Reducer/Parts.antt =====
-- The handlers of core/models/reducer.go that open a response and open, fill and close a part.
use serpe.Base.{
  Bool, true, false, not, Option, none, some, [], ◌++◌, ◌==◌, if◌then◌else◌, lookup, has, put,
  pair_eq, Bytes, bytes_eq, nat_eq,
}
use mathlib.Core.Option
use serpe.Models.{ToolCall}
use serpe.Models.Content.{
  Content, ContentKind, text_kind, image_kind, tool_call_kind, tool_result_kind, reasoning_kind,
  refusal_kind, other_kind, Image, Test, validate, clone, data_bytes,
}
use serpe.Models.Event.{
  Event, Delta, DeltaKind, text_delta, arguments_delta, reasoning_delta, refusal_delta, media_delta,
  other_delta, ResponseInfo,
}
use serpe.Models.Reducer.{
  Part, Reducer, Result, ok, err, no_response, index, part_key, or_keep, finish_unknown,
  no_candidate, candidate_or, duplicate_start, not_started, duplicate_part, part_missing,
  part_ended, delta_mismatch, arguments_twice, invalid_part,
}

unfoldable pub start : ResponseInfo → Reducer → Result Reducer
start info r =
    let provider = or_keep info.provider r.provider in
    if r.started
    then err duplicate_start
    else ok (record r {
      provider = provider;
      response = record no_response {
        provider = provider;
        id = info.id;
        model = info.model;
        status = info.status;
        request_id = info.request_id;
        created_at = info.created_at;
        provider_state = info.provider_state;
        metadata = info.metadata;
      };
      started = true;
    })

abbrev pub new_part : Content → Part
new_part content = record { content = content; text = []; args = []; media = []; ended = false }

unfoldable pub start_part : Event → Reducer → Result Reducer
unfolding lookup put clone
start_part e r =
    let candidate_index = index e.candidate_index in
    let candidate =
      candidate_or (no_candidate finish_unknown) (lookup candidate_index r.candidates) in
    if not r.started
    then err not_started
    else if has (part_key e) r.parts
    then err duplicate_part
    else ok (record r {
      parts = put (part_key e) (new_part (clone e.part)) r.parts;
      candidates =
          put candidate_index
            (record candidate { parts = put (index e.part_index) tt candidate.parts }) r.candidates;
    })

-- Whether a delta of this kind may go to a part with this content.
unfoldable pub accepts_delta : DeltaKind → Content → Bool
accepts_delta text_delta c = elim c.kind [ text_kind ↦ true | _ ↦ false ]
accepts_delta arguments_delta c = elim c.kind [ tool_call_kind ↦ true | _ ↦ false ]
accepts_delta reasoning_delta c = elim c.kind [ reasoning_kind ↦ true | _ ↦ false ]
accepts_delta refusal_delta c = elim c.kind [ refusal_kind ↦ true | _ ↦ false ]
accepts_delta media_delta c = elim c.kind [
  | image_kind ↦ elim c.image [ none ↦ false | some image ↦ image.uri == [] ]
  | _ ↦ false
]
accepts_delta (other_delta name) c = false

unfoldable pub write_delta : DeltaKind → Delta → Part → Part
write_delta arguments_delta d p = record p { args = p.args ++ d.text }
write_delta media_delta d p = record p { media = p.media ++ d.media }
write_delta text_delta d p = record p { text = p.text ++ d.text }
write_delta reasoning_delta d p = record p { text = p.text ++ d.text }
write_delta refusal_delta d p = record p { text = p.text ++ d.text }
write_delta (other_delta name) d p = p

unfoldable pub delta_part : Event → Reducer → Result Reducer
unfolding lookup put accepts_delta write_delta
delta_part e r = if not r.started then err not_started else elim (lookup (part_key e) r.parts) [
  | none ↦ err part_missing
  | some p ↦
      if p.ended
      then err part_ended
      else if not (accepts_delta e.delta.kind p.content)
      then err delta_mismatch
      else ok (record r { parts = put (part_key e) (write_delta e.delta.kind e.delta p) r.parts })
]

-- `append(data, media...)`
abbrev pub append_media : Option Bytes → Bytes → Option Bytes
append_media bytes media = if media == [] then bytes else some (data_bytes bytes ++ media)

abbrev pub add_media : Bytes → Image → Image
add_media media image = record image { image_data = append_media image.image_data media }

unfoldable pub complete_call : Bytes → Option ToolCall → Result (Option ToolCall)
complete_call args none = ok none
complete_call args (some call) =
    if args == []
    then ok (some call)
    else if not (call.arguments == [])
    then err arguments_twice
    else ok (some (record call { arguments = args }))

-- The `switch` of `endPart`.
unfoldable pub complete : ContentKind → Part → Result Content
unfolding complete_call
complete text_kind p =
    ok (record p.content { text = Option.map (λ (t : Bytes). t ++ p.text) p.content.text })
complete reasoning_kind p = ok (record p.content {
  reasoning_summary = Option.map (λ (t : Bytes). t ++ p.text) p.content.reasoning_summary;
})
complete refusal_kind p =
    ok (record p.content { refusal = Option.map (λ (t : Bytes). t ++ p.text) p.content.refusal })
complete image_kind p =
    ok (record p.content { image = Option.map (add_media p.media) p.content.image })
complete tool_call_kind p = elim (complete_call p.args p.content.tool_call) [
  | err e ↦ err e
  | ok call ↦ ok (record p.content { tool_call = call })
]
complete tool_result_kind p = ok p.content
complete (other_kind name) p = ok p.content

module _ (is_object has_scheme : Test) where
  unfoldable pub close_part : Part → Result Part
  unfolding complete validate
  close_part p = elim (complete p.content.kind p) [
    | err e ↦ err e
    | ok content ↦ elim (validate is_object has_scheme content) [
      | some e ↦ err (invalid_part e)
      | none ↦ ok (record p { content = content; ended = true })
    ]
  ]

  unfoldable pub end_part : Event → Reducer → Result Reducer
  unfolding lookup put close_part
  end_part e r = if not r.started then err not_started else elim (lookup (part_key e) r.parts) [
    | none ↦ err part_missing
    | some p ↦ if p.ended then err part_ended else elim (close_part p) [
      | err e ↦ err e
      | ok p ↦ ok (record r { parts = put (part_key e) p r.parts })
    ]
  ]
