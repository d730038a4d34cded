-- ===== src/Models/Reducer/Payload.antt =====
-- What the handlers of core/models/reducer.go do to the bytes of one part.
use serpe.Base.{
  ◌≡◌, refl, inl, inr, sym, subst, arith, Option-cases, ==_iff, true, Option, none, some, [], ◌∷◌,
  ◌++◌, is_some, pair_eq, Bytes, bytes_eq, bytes_beq, nat_eq,
}
use mathlib.Core.Option
use serpe.Models.{ToolCall}
use serpe.Models.Content.{
  Content, ContentKind, text_kind, image_kind, tool_call_kind, tool_result_kind, reasoning_kind,
  refusal_kind, other_kind, Image, Test, validate, clone, copy_bytes, data_bytes,
}
use serpe.Models.Event.{
  Delta, DeltaKind, text_delta, arguments_delta, reasoning_delta, refusal_delta, media_delta,
  other_delta,
}
use serpe.Models.Reducer.{Part, Result, ok, err}
use mathlib.Core.List.{append-nil}
use serpe.Models.Reducer.Parts.{
  close_part, complete, complete_call, append_media, add_media, accepts_delta, write_delta,
}

-- The bytes that a block of this kind carries.
unfoldable pub payload_of : ContentKind → Content → Bytes
payload_of text_kind c = data_bytes c.text
payload_of reasoning_kind c = data_bytes c.reasoning_summary
payload_of refusal_kind c = data_bytes c.refusal
payload_of image_kind c = elim c.image [ none ↦ [] | some image ↦ data_bytes image.image_data ]
payload_of tool_call_kind c = elim c.tool_call [ none ↦ [] | some call ↦ call.arguments ]
payload_of tool_result_kind c = []
payload_of (other_kind name) c = []

unfoldable pub payload : Content → Bytes
unfolding payload_of
payload c = payload_of c.kind c

-- The bytes that the deltas of an open part have brought.
unfoldable pub pending_of : ContentKind → Part → Bytes
pending_of text_kind p = p.text
pending_of reasoning_kind p = p.text
pending_of refusal_kind p = p.text
pending_of image_kind p = p.media
pending_of tool_call_kind p = p.args
pending_of tool_result_kind p = []
pending_of (other_kind name) p = []

unfoldable pub delta_bytes : Delta → Bytes
delta_bytes d = elim d.kind [ media_delta ↦ d.media | _ ↦ d.text ]

pub write_delta-pending :
    (dk : DeltaKind) (d : Delta) (p : Part)
    → dk ≡ d.kind
    → accepts_delta dk p.content ≡ true
    → let q = write_delta dk d p in
      (pending_of p.content.kind q ≡ pending_of p.content.kind p ++ delta_bytes d)
      × (q.content ≡ p.content)
      × (q.ended ≡ p.ended)
unfolding write_delta accepts_delta pending_of delta_bytes
write_delta-pending text_delta d p e h = ground arith
write_delta-pending arguments_delta d p e h = ground arith
write_delta-pending reasoning_delta d p e h = ground arith
write_delta-pending refusal_delta d p e h = ground arith
write_delta-pending media_delta d p e h = ground arith
write_delta-pending (other_delta name) d p e h = cc

append_media_bytes :
    (bytes : Option Bytes) (media : Bytes)
    → data_bytes (append_media bytes media) ≡ data_bytes bytes ++ media
unfolding bytes_beq
append_media_bytes none [] = refl
append_media_bytes none (b ∷ media) = refl
append_media_bytes (some bytes) [] = sym (append-nil bytes)
append_media_bytes (some bytes) (b ∷ media) = refl

image_bytes : Option Image → Bytes
image_bytes none = []
image_bytes (some image) = data_bytes image.image_data

map-add_media :
    (o : Option Image) (media : Bytes)
    → is_some o ≡ true
    → image_bytes (Option.map (add_media media) o) ≡ image_bytes o ++ media
unfolding image_bytes
map-add_media none media h = cc
map-add_media (some image) media h = append_media_bytes image.image_data media

call_payload : Option ToolCall → Bytes
call_payload none = []
call_payload (some call) = call.arguments

complete_call_payload :
    (args : Bytes) (call made : Option ToolCall)
    → complete_call args call ≡ ok made
    → is_some made ≡ true
    → call_payload made ≡ call_payload call ++ args
unfolding complete_call call_payload bytes_beq
complete_call_payload args none made h p = absurd (ground arith)
complete_call_payload [] (some call) made h p = ground (arith, append-nil call.arguments)
complete_call_payload (b ∷ args) (some call) made h p =
    let empty : call.arguments ≡ [] = ground (arith, ==_iff call.arguments []) in
    rw empty (ground arith)

module _ (is_object has_scheme : Test) where
  complete_payload :
      (k : ContentKind) (p : Part) (c : Content)
      → k ≡ p.content.kind
      → complete k p ≡ ok c
      → validate is_object has_scheme c ≡ none
      → (c.kind ≡ k) × (payload_of k c ≡ payload_of k p.content ++ pending_of k p)
  unfolding complete payload_of pending_of validate image_bytes call_payload
  complete_payload text_kind p c e h v = ground arith
  complete_payload reasoning_kind p c e h v = ground arith
  complete_payload refusal_kind p c e h v = ground arith
  complete_payload image_kind p c e h v = ground (arith, map-add_media p.content.image p.media)
  complete_payload tool_call_kind p c e h v =
      ground (arith, complete_call_payload p.args p.content.tool_call c.tool_call)
  complete_payload tool_result_kind p c e h v = ground arith
  complete_payload (other_kind name) p c e h v = ground arith

  pub close_part_lem :
      (p q : Part)
      → close_part is_object has_scheme p ≡ ok q
      → (q.ended ≡ true)
        × (q.content.kind ≡ p.content.kind)
        × (payload q.content ≡ payload p.content ++ pending_of p.content.kind p)
        × (validate is_object has_scheme q.content ≡ none)
  unfolding close_part payload
  close_part_lem p q h = closed (complete p.content.kind p) refl
    where
      closed :
          (r : Result Content)
          → complete p.content.kind p ≡ r
          → (q.ended ≡ true)
            × (q.content.kind ≡ p.content.kind)
            × (payload q.content ≡ payload p.content ++ pending_of p.content.kind p)
            × (validate is_object has_scheme q.content ≡ none)
      closed (err e) done = absurd (cc (done, h))
      closed (ok c) done = elim (Option-cases (validate is_object has_scheme c)) [
        | inr (e, bad) ↦ absurd (cc (done, bad, h))
        | inl valid ↦
            let (same, bytes) = complete_payload p.content.kind p c refl done valid in
            let made : record p { content = c; ended = true } ≡ q = cc (done, valid, h) in
            subst
              (λ (q : Part).
                (q.ended ≡ true)
                × (q.content.kind ≡ p.content.kind)
                × (payload q.content ≡ payload p.content ++ pending_of p.content.kind p)
                × (validate is_object has_scheme q.content ≡ none))
              made
              (
                refl,
                same,
                subst (λ k. payload_of k c ≡ payload p.content ++ pending_of p.content.kind p)
                    (sym same) bytes,
                valid,
              )
      ]

copy_bytes_lem : (bytes : Bytes) → data_bytes (copy_bytes bytes) ≡ bytes
unfolding copy_bytes bytes_beq
copy_bytes_lem [] = refl
copy_bytes_lem (b ∷ bytes) = refl

payload_of-clone : (k : ContentKind) (c : Content) → payload_of k (clone c) ≡ payload_of k c
unfolding clone payload_of
payload_of-clone text_kind c = refl
payload_of-clone reasoning_kind c = refl
payload_of-clone refusal_kind c = refl
payload_of-clone image_kind c = elim (Option-cases c.image) [
  | inl missing ↦ ground (arith, missing)
  | inr (image, e) ↦ ground (arith, copy_bytes_lem (data_bytes image.image_data))
]
payload_of-clone tool_call_kind c = refl
payload_of-clone tool_result_kind c = refl
payload_of-clone (other_kind name) c = refl

-- A copy of a block carries the same bytes.
pub payload-clone : (c : Content) → (payload (clone c) ≡ payload c) × ((clone c).kind ≡ c.kind)
unfolding payload clone
payload-clone c = (payload_of-clone c.kind c, refl)
