-- ===== src/Models.antt =====
-- core/models: a tool call, and `BoundedIdentity` of stream_limits.go, with what the checks of tool
-- calls share.
pub mod Content
pub mod Event
pub mod Reducer
pub mod Limiter
pub mod Frame
pub mod Stream
use serpe.Base.{
  ℕ, ◌≡◌, Bool, false, not, ◌&&◌, ◌||◌, Option, none, some, List, [], ◌∷◌, ◌==◌, ltb, if◌then◌else◌,
  Assoc, has, put, lookup-put, Bytes, bytes_eq, length, valid_string, contains_control, arith,
}

pub record ToolCall : Type 0 where
  pub id : Bytes
  pub name : Bytes
  pub arguments : Bytes

-- A `map[string]struct{}` of call IDs.
abbrev pub Ids : Type 0
Ids = Assoc Bytes (Unit {0})

-- One of the calls has the id.
abbrev pub has_call : Bytes → List ToolCall → Bool
has_call id [] = false
has_call id (call ∷ calls) = call.id == id || has_call id calls

pub has-put : (k j : Bytes) (m : Ids) → has j (put k tt m) ≡ (k == j || has j m)
has-put k j m = ground (arith, lookup-put k j tt m)

pub data IdentityError : Type 0 where
  is_empty not_utf8 exceeds_bytes control_character : IdentityError

-- `none` is a nil error.
unfoldable pub bounded_identity : Bytes → ℕ → Bool → Option IdentityError
unfolding valid_string contains_control
bounded_identity value limit allow_empty =
    if not allow_empty && value == []
    then some is_empty
    else if not (valid_string value)
    then some not_utf8
    else if ltb limit (length value)
    then some exceeds_bytes
    else if contains_control value
    then some control_character
    else none
