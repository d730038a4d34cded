-- ===== src/Models/Content.antt =====
-- core/models/content.go: the content blocks of a message. A nil pointer, and a nil slice where the
-- code tells it from an empty one, is `none`. The blocks in a tool result are a type parameter `C`,
-- since a valid tool result holds texts and images only. What `jsonvalue.IsObject` and `url.Parse`
-- say of a text are parameters.
use serpe.Base.{
  ℕ, ◌+◌, Bool, true, false, not, ◌&&◌, ◌||◌, Option, none, some, List, [], ◌∷◌, ◌==◌,
  if◌then◌else◌, is_some, length, Bytes, bytes_eq, codes, nat_eq,
}
use mathlib.Core.List.{map}
use mathlib.Core.Option
use serpe.Models.{ToolCall}

pub data ContentKind : Type 0 where
  text_kind image_kind tool_call_kind tool_result_kind reasoning_kind refusal_kind : ContentKind
  -- any other string, and the empty one
  other_kind : Bytes → ContentKind

unfoldable pub kind_name : ContentKind → Bytes
kind_name text_kind = codes "text"
kind_name image_kind = codes "image"
kind_name tool_call_kind = codes "tool_call"
kind_name tool_result_kind = codes "tool_result"
kind_name reasoning_kind = codes "reasoning_summary"
kind_name refusal_kind = codes "refusal"
kind_name (other_kind name) = name

-- `kind != ""`
abbrev pub is_kind_set : ContentKind → Bool
is_kind_set (other_kind name) = not (name == [])
is_kind_set _ = true

pub record Image : Type 0 where
  pub uri : Bytes
  pub mime_type : Bytes
  pub image_data : Option Bytes
  pub detail : Bytes

pub record ToolResult (C : Type 0) : Type 0 where
  pub call_id : Bytes
  pub name : Bytes
  pub contents : List C
  pub is_error : Bool

-- `TextContent`, `ReasoningSummaryContent` and `RefusalContent` hold one text each.
pub record ContentOf (C : Type 0) : Type 0 where
  pub kind : ContentKind
  pub text : Option Bytes
  pub image : Option Image
  pub tool_call : Option ToolCall
  pub tool_result : Option (ToolResult C)
  pub reasoning_summary : Option Bytes
  pub refusal : Option Bytes

-- A block in a tool result, and a block of a message.
abbrev pub Child : Type 0
Child = ContentOf (Unit {0})

abbrev pub Content : Type 0
Content = ContentOf Child

pub data ContentError : Type 0 where
  not_one_variant kind_mismatch name_required arguments_not_object call_id_required : ContentError
  result_content_required child_not_text_or_image unknown_kind_error : ContentError
  image_not_exclusive uri_not_absolute inline_incomplete invalid_detail : ContentError

-- The bytes of a slice that may be nil.
abbrev pub data_bytes : Option Bytes → Bytes
data_bytes none = []
data_bytes (some bytes) = bytes

-- `append([]byte(nil), bytes...)`: an empty slice is copied to nil.
unfoldable pub copy_bytes : Bytes → Option Bytes
copy_bytes bytes = if bytes == [] then none else some bytes

abbrev one_if : Bool → ℕ
one_if true = 1
one_if false = 0

unfoldable pub union_count : {C : Type 0} → ContentOf C → ℕ
union_count c =
    one_if (is_some c.text)
    + one_if (is_some c.image)
    + one_if (is_some c.tool_call)
    + one_if (is_some c.tool_result)
    + one_if (is_some c.reasoning_summary)
    + one_if (is_some c.refusal)

unfoldable pub content_set : {C : Type 0} → ContentOf C → Bool
unfolding union_count
content_set c = is_kind_set c.kind || not (union_count c == 0)

abbrev pub Test : Type 0
Test = Bytes → Bool

module _ (has_scheme : Test) where
  unfoldable pub validate_image : Image → Option ContentError
  validate_image image =
      let inline = not (image.mime_type == []) || is_some image.image_data in
      let is_remote = not (image.uri == []) in
      if (is_remote && inline) || (not is_remote && not inline)
      then some image_not_exclusive
      else if is_remote && not (has_scheme image.uri)
      then some uri_not_absolute
      else if inline && (image.mime_type == [] || data_bytes image.image_data == [])
      then some inline_incomplete
      else if not (
          image.detail == []
          || image.detail == codes "auto"
          || image.detail == codes "low"
          || image.detail == codes "high")
      then some invalid_detail
      else none

module _ (is_object has_scheme : Test) {C : Type 0} (validate_child : C → Option ContentError) where
  -- The loop over the children of a tool result; `is_plain` holds of a text or an image.
  unfoldable pub validate_children : (C → Bool) → List C → Option ContentError
  validate_children is_plain [] = none
  validate_children is_plain (c ∷ cs) =
      let rest = validate_children is_plain cs in
      if not (is_plain c)
      then some child_not_text_or_image
      else elim (validate_child c) [ some e ↦ some e | none ↦ rest ]

  unfoldable pub validate_call : ToolCall → Option ContentError
  validate_call call =
      if call.name == []
      then some name_required
      else if not (is_object call.arguments)
      then some arguments_not_object
      else none

  unfoldable pub validate_result : (C → Bool) → ToolResult C → Option ContentError
  unfolding validate_children
  validate_result is_plain result =
      if result.call_id == []
      then some call_id_required
      else if result.name == []
      then some name_required
      else if length result.contents == 0
      then some result_content_required
      else validate_children is_plain result.contents

  -- The `switch` of `Validate`, on `c.Kind`.
  unfoldable pub validate_variant : (C → Bool) → ContentKind → ContentOf C → Option ContentError
  unfolding validate_image validate_call validate_result
  validate_variant is_plain text_kind c = if is_some c.text then none else some kind_mismatch
  validate_variant is_plain image_kind c = elim c.image [
    | none ↦ some kind_mismatch
    | some image ↦ validate_image has_scheme image
  ]
  validate_variant is_plain tool_call_kind c = elim c.tool_call [
    | none ↦ some kind_mismatch
    | some call ↦ validate_call call
  ]
  validate_variant is_plain tool_result_kind c = elim c.tool_result [
    | none ↦ some kind_mismatch
    | some result ↦ validate_result is_plain result
  ]
  validate_variant is_plain reasoning_kind c =
      if is_some c.reasoning_summary then none else some kind_mismatch
  validate_variant is_plain refusal_kind c = if is_some c.refusal then none else some kind_mismatch
  validate_variant is_plain (other_kind name) c = some unknown_kind_error

  unfoldable pub validate_with : (C → Bool) → ContentOf C → Option ContentError
  unfolding union_count validate_variant
  validate_with is_plain c =
      if not (union_count c == 1) then some not_one_variant else validate_variant is_plain c.kind c

abbrev pub is_plain_kind : ContentKind → Bool
is_plain_kind text_kind = true
is_plain_kind image_kind = true
is_plain_kind _ = false

-- The blocks in a tool result of a block in a tool result are never looked at.
unfoldable pub validate_child : Test → Test → Child → Option ContentError
unfolding validate_with
validate_child is_object has_scheme = validate_with is_object has_scheme (λ _. none) (λ _. false)

-- `Content.Validate`; `none` is a nil error.
unfoldable pub validate : Test → Test → Content → Option ContentError
unfolding validate_child
validate is_object has_scheme =
    validate_with is_object has_scheme (validate_child is_object has_scheme)
      (λ c. is_plain_kind c.kind)

unfoldable pub clone_image : Image → Image
unfolding copy_bytes
clone_image image = record image { image_data = copy_bytes (data_bytes image.image_data) }

-- `Clone` of a block, where `clone_child` is that of the blocks in its tool result. Only image data
-- tells a nil slice from an empty one.
unfoldable pub clone_with : {C : Type 0} → (C → C) → ContentOf C → ContentOf C
unfolding clone_image
clone_with clone_child c = record c {
  image = Option.map clone_image c.image;
  tool_result =
      Option.map (λ (r : ToolResult _). record r { contents = map clone_child r.contents })
        c.tool_result;
}

unfoldable pub clone : Content → Content
unfolding clone_with
clone = clone_with (clone_with (λ c. c))
