-- ===== src/Models/Limiter.antt =====
-- core/models/stream_limits.go: the limits of a stream, and the limiter that counts the events of a
-- turn. `frame e max` is the size that `measureEventFrame` counts for an event of a valid shape, and
-- `none` where it fails. A limiter that has refused an event is not used again: what the refused event
-- had already written is not kept.
pub mod Starts
pub mod Steps
pub mod Within
pub use serpe.Base.{ok, err, ◌>>=◌}
use serpe.Base.{
  Fallible, ℕ, suc, ◌+◌, ◌*◌, ◌^◌, ◌-◌, Bool, true, false, not, ◌&&◌, ◌||◌, Option, none, some,
  List, [], ◌∷◌, ◌==◌, ltb, leb, if◌then◌else◌, is_some, length, Assoc, lookup, has, put, pair_eq,
  nat_eq, ℤ, pos, negsuc,
}
use serpe.Models.Content.{Content, ContentKind, tool_call_kind, Test}
use serpe.Models.Event.{
  is_part_event, Event, EventKind, response_start, part_start, part_delta, part_end, response_end,
  other_event, CandidateFinish, ResponseInfo, ShapeError, validate_event_shape, is_start,
}
use serpe.Models.Reducer.{PartKey, index, part_key}

pub record StreamLimits (N : Type 0) : Type 0 where
  pub max_event_bytes : N
  pub max_turn_bytes : N
  pub max_events : N
  pub max_candidates : N
  pub max_parts : N
  pub max_metadata_entries : N
  pub max_tool_calls : N

pub data LimitError : Type 0 where
  is_negative not_between turn_below_event : LimitError
  too_many_events index_exceeds too_many_finishes duplicate_finish : LimitError
  bad_shape : ShapeError → LimitError
  frame_failed event_exceeds turn_exceeds metadata_exceeds : LimitError
  too_many_parts too_many_candidates too_many_tool_calls : LimitError

abbrev pub Result {ℓ} : Type ℓ → Type ℓ
Result A = Fallible LimitError A

-- `streamInt64Limit` and `streamIntLimit`
unfoldable pub stream_limit : ℤ → ℕ → ℕ → Result ℕ
stream_limit (negsuc n) ceiling minimum = err is_negative
stream_limit (pos n) ceiling minimum =
    if n == 0 then ok ceiling else if ltb n minimum || ltb ceiling n then err not_between else ok n

unfoldable pub normalize_stream_limits : StreamLimits ℤ → Result (StreamLimits ℕ)
unfolding stream_limit
normalize_stream_limits l = stream_limit l.max_event_bytes (2 * 2 ^ 20) 512 >>= λ event_bytes.
    stream_limit l.max_turn_bytes (32 * 2 ^ 20) 1024 >>= λ turn_bytes.
    (if ltb turn_bytes event_bytes then err turn_below_event else ok turn_bytes) >>= λ turn_bytes.
    stream_limit l.max_events 65536 2 >>= λ events.
    stream_limit l.max_candidates 8 1 >>= λ candidates. stream_limit l.max_parts 4096 1 >>= λ parts.
    stream_limit l.max_metadata_entries 256 1 >>= λ metadata.
    stream_limit l.max_tool_calls 128 1 >>= λ calls. ok (record {
      max_event_bytes = event_bytes;
      max_turn_bytes = turn_bytes;
      max_events = events;
      max_candidates = candidates;
      max_parts = parts;
      max_metadata_entries = metadata;
      max_tool_calls = calls;
    })

pub record Limiter : Type 0 where
  pub limits : StreamLimits ℕ
  pub events : ℕ
  pub turn_bytes : ℕ
  pub metadata_entries : ℕ
  pub tool_calls : ℕ
  pub candidates : Assoc ℕ (Unit {0})
  pub parts : Assoc PartKey ContentKind

unfoldable pub new_limiter : StreamLimits ℕ → Limiter
new_limiter limits = record {
  limits = limits;
  events = 0;
  turn_bytes = 0;
  metadata_entries = 0;
  tool_calls = 0;
  candidates = [];
  parts = [];
}

abbrev pub max_terminal_finishes : ℕ
max_terminal_finishes = 8

-- An index that is negative or reaches the limit.
abbrev pub is_outside : ℤ → ℕ → Bool
is_outside (negsuc n) limit = true
is_outside (pos n) limit = leb limit n

-- The loop over the finishes, with the candidates that it has seen.
unfoldable pub check_finishes : ℕ → Assoc ℕ (Unit {0}) → List CandidateFinish → Option LimitError
unfolding lookup put
check_finishes limit seen [] = none
check_finishes limit seen (f ∷ fs) =
    let rest = check_finishes limit (put (index f.candidate_index) tt seen) fs in
    if is_outside f.candidate_index limit
    then some index_exceeds
    else if has (index f.candidate_index) seen
    then some duplicate_finish
    else rest

unfoldable pub validate_indexes : Event → Limiter → Option LimitError
unfolding check_finishes
validate_indexes e l =
    if is_part_event e.kind
      && (is_outside e.candidate_index l.limits.max_candidates
          || is_outside e.part_index l.limits.max_parts)
    then some index_exceeds
    else if ltb max_terminal_finishes (length e.finishes)
    then some too_many_finishes
    else check_finishes l.limits.max_candidates [] e.finishes

-- `len(event.Response.Metadata)`
abbrev pub metadata_of : Option ResponseInfo → ℕ
metadata_of none = 0
metadata_of (some info) = elim info.metadata [ none ↦ 0 | some entries ↦ length entries ]

unfoldable pub add_finishes :
    ℕ → List CandidateFinish → Assoc ℕ (Unit {0}) → Result (Assoc ℕ (Unit {0}))
unfolding lookup put
add_finishes limit [] candidates = ok candidates
add_finishes limit (f ∷ fs) candidates =
    let i = index f.candidate_index in
    let known = add_finishes limit fs candidates in
    let added = add_finishes limit fs (put i tt candidates) in
    if has i candidates
    then known
    else if leb limit (length candidates)
    then err too_many_candidates
    else added

-- Whether an event opens a tool call.
abbrev pub is_tool_call : Event → Bool
is_tool_call e =
    is_start e.kind && elim e.part.kind [ tool_call_kind ↦ is_some e.part.tool_call | _ ↦ false ]

-- What the first tests of `acceptStructure` refuse.
unfoldable pub check_start : Event → Limiter → Option LimitError
unfolding lookup
check_start e l =
    if not (is_start e.kind)
    then none
    else if not (has (part_key e) l.parts) && leb l.limits.max_parts (length l.parts)
    then some too_many_parts
    else if not (has (index e.candidate_index) l.candidates)
        && leb l.limits.max_candidates (length l.candidates)
    then some too_many_candidates
    else none

-- What `acceptStructure` writes once nothing is refused; `candidates` has those of the finishes.
unfoldable pub note_start : Event → Assoc ℕ (Unit {0}) → Limiter → Limiter
unfolding lookup put
note_start e candidates l =
    let i = index e.candidate_index in
    record l {
      metadata_entries = l.metadata_entries + metadata_of e.response;
      tool_calls = if is_tool_call e then suc l.tool_calls else l.tool_calls;
      candidates =
          if is_start e.kind && not (has i l.candidates) then put i tt candidates else candidates;
      parts =
          if is_start e.kind && not (has (part_key e) l.parts)
          then put (part_key e) e.part.kind l.parts
          else l.parts;
    }

unfoldable pub accept_structure : Event → Limiter → Result Limiter
unfolding check_start add_finishes note_start
accept_structure e l =
    if ltb l.limits.max_metadata_entries (metadata_of e.response + l.metadata_entries)
    then err metadata_exceeds
    else elim (check_start e l) [
      | some error ↦ err error
      | none ↦ add_finishes l.limits.max_candidates e.finishes l.candidates >>= λ candidates.
          (if is_tool_call e && leb l.limits.max_tool_calls l.tool_calls
            then err too_many_tool_calls
            else ok (note_start e candidates l))
    ]

module _ (is_object has_scheme : Test) (frame : Event → ℕ → Option ℕ) where
  unfoldable pub measure_event_frame : Event → ℕ → Result ℕ
  unfolding validate_event_shape
  measure_event_frame e max = elim (validate_event_shape is_object has_scheme e) [
    | some error ↦ err (bad_shape error)
    | none ↦ elim (frame e max) [ none ↦ err frame_failed | some size ↦ ok size ]
  ]

  unfoldable pub accept : Event → Limiter → Result Limiter
  unfolding validate_indexes measure_event_frame accept_structure
  accept e l =
      if leb l.limits.max_events l.events
      then err too_many_events
      else elim (validate_indexes e l) [
        | some error ↦ err error
        | none ↦ measure_event_frame e l.limits.max_event_bytes >>= λ size.
            (if ltb l.limits.max_event_bytes size
              then err event_exceeds
              else if ltb l.limits.max_turn_bytes (size + l.turn_bytes)
              then err turn_exceeds
              else accept_structure e l >>= λ l.
                  ok (record l { events = suc l.events; turn_bytes = l.turn_bytes + size }))
      ]

  -- The events of a turn in order.
  unfoldable pub accept_all : List Event → Limiter → Result Limiter
  unfolding accept
  accept_all [] l = ok l
  accept_all (e ∷ es) l = accept e l >>= λ l. accept_all es l
