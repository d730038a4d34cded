-- ===== src/Tools/Envelope.antt =====
-- `checkEnvelope` of core/tools/input.go, with `add64` of core/tools/limits.go. Sizes are not
-- negative. `none` is a nil error.
pub mod Accepted
use serpe.Base.{
  max_int64, ℕ, ◌+◌, ◌-◌, Bool, true, false, ◌&&◌, ◌||◌, Option, none, some, List, [], ◌∷◌, ◌==◌,
  ltb, if◌then◌else◌, has, put, lookup, Bytes, bytes_eq, nat_eq, length,
}
use serpe.Models.{ToolCall, Ids, IdentityError, bounded_identity}
use serpe.Tools.Limits.{InputLimits}

pub data EnvelopeError : Type 0 where
  empty_batch too_many_calls duplicate_id name_too_long arguments_too_long : EnvelopeError
  batch_too_long : EnvelopeError
  invalid_id : IdentityError → EnvelopeError

unfoldable pub add64 : ℕ → ℕ → Option ℕ
add64 a b = if ltb 0 b && ltb (max_int64 - b) a then none else some (a + b)

-- The next total of argument bytes; `none` where the batch is refused.
unfoldable pub add_arguments : InputLimits ℕ → ℕ → ToolCall → Option ℕ
unfolding add64
add_arguments limits args call = elim (add64 args (length call.arguments)) [
  | none ↦ none
  | some total ↦ if ltb limits.max_batch_argument_bytes total then none else some total
]

-- The checks of one call that come before its arguments are added.
unfoldable pub check_call : InputLimits ℕ → Ids → ToolCall → Option EnvelopeError
unfolding bounded_identity lookup
check_call limits seen call = elim (bounded_identity call.id limits.max_call_id_bytes false) [
  | some e ↦ some (invalid_id e)
  | none ↦
      if has call.id seen
      then some duplicate_id
      else if ltb limits.max_tool_name_bytes (length call.name)
      then some name_too_long
      else if ltb limits.max_arguments_bytes (length call.arguments)
      then some arguments_too_long
      else none
]

-- The loop of `checkEnvelope`.
unfoldable pub check_each : InputLimits ℕ → Ids → ℕ → List ToolCall → Option EnvelopeError
unfolding check_call add_arguments put
check_each limits seen args [] = none
check_each limits seen args (call ∷ calls) = elim (check_call limits seen call) [
  | some e ↦ some e
  | none ↦ elim (add_arguments limits args call) [
    | none ↦ some batch_too_long
    | some total ↦ check_each limits (put call.id tt seen) total calls
  ]
]

unfoldable pub check_envelope : List ToolCall → InputLimits ℕ → Option EnvelopeError
unfolding check_each
check_envelope calls limits =
    if length calls == 0
    then some empty_batch
    else if ltb limits.max_calls (length calls)
    then some too_many_calls
    else check_each limits [] 0 calls
