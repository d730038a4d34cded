-- ===== src/Models/Stream.antt =====
-- core/models/stream.go: the stream around a source of events. `Next` has two regions under the mutex
-- with the read of the source between them: `may_read` and `take`. `Close` and other calls of `Next`
-- may come between them. A read answers with an event, the end, or another failure; then the context
-- may be done, or the failure may be the provider's own. The zero event is `none`. That `Close` closes
-- the source, once, is not modelled.
pub mod Applied
pub mod Reached
pub mod Answer
use serpe.Base.{
  ℕ, Bool, true, false, not, ◌&&◌, ◌||◌, Option, none, some, List, [], ◌∷◌, if◌then◌else◌, is_some,
  Bytes, ℤ, pos,
}
use serpe.Models.Content.{Test}
use serpe.Models.Event.{Event, EventKind, response_end}
use serpe.Models.Limiter as Limits
use serpe.Models.Reducer as Reduction
use serpe.Models.Reducer.{Reducer, Response, ReduceError, new_reducer}
use serpe.Models.Reducer.Apply.{apply, result}
use serpe.Models.Limiter.{
  StreamLimits, LimitError, Limiter, new_limiter, normalize_stream_limits, accept,
}

pub data Read : Type 0 where
  read : Event → Read
  end_of_file : Read
  failed : Bool → Bool → Read

pub data StreamError : Type 0 where
  limits_invalid : LimitError → StreamError
  source_missing limiter_missing unexpected_eof cancelled model_error : StreamError
  -- whether the read may be tried again
  read_error : Bool → StreamError
  response_limit : LimitError → StreamError
  protocol : ReduceError → StreamError

pub record EventStream : Type 0 where
  pub reducer : Reducer
  pub limiter : Option Limiter
  pub current : Option Event
  pub failure : Option StreamError
  pub response : Option Response
  pub terminal_seen : Bool
  pub finished : Bool
  pub closed : Bool

abbrev unset_limits : StreamLimits ℤ
unset_limits = record {
  max_event_bytes = pos 0;
  max_turn_bytes = pos 0;
  max_events = pos 0;
  max_candidates = pos 0;
  max_parts = pos 0;
  max_metadata_entries = pos 0;
  max_tool_calls = pos 0;
}

-- The limits of the last `WithStreamLimits`, or the defaults.
unfoldable pub configured_limits : Option (StreamLimits ℤ) → Limits.Result (StreamLimits ℕ)
unfolding normalize_stream_limits
configured_limits none = normalize_stream_limits unset_limits
configured_limits (some limits) = normalize_stream_limits limits

unfoldable pub new_stream : Bytes → Option (StreamLimits ℤ) → Bool → EventStream
unfolding configured_limits new_reducer new_limiter
new_stream provider given has_source =
    let configured = configured_limits given in
    record {
      reducer = new_reducer provider;
      limiter = elim configured [
        | Limits.ok limits ↦ some (new_limiter limits)
        | Limits.err e ↦ none
      ];
      current = none;
      failure =
          if not has_source
          then some source_missing
          else elim configured [ Limits.ok limits ↦ none | Limits.err e ↦ some (limits_invalid e) ];
      response = none;
      terminal_seen = false;
      finished = false;
      closed = false;
    }

-- The first region of `Next`.
unfoldable pub may_read : EventStream → Bool
may_read s = not (s.finished || is_some s.failure || s.closed)

abbrev pub is_end : EventKind → Bool
is_end response_end = true
is_end _ = false

abbrev fail : StreamError → EventStream → EventStream × Bool
fail error s = (record s { failure = some error }, false)

module _ (is_object has_scheme : Test) (frame : Event → ℕ → Option ℕ) where
  unfoldable pub take_event : Event → EventStream → EventStream × Bool
  unfolding accept apply
  take_event e s = elim s.limiter [
    | none ↦ fail limiter_missing s
    | some limiter ↦ elim (accept is_object has_scheme frame e limiter) [
      | Limits.err error ↦ fail (response_limit error) s
      | Limits.ok limiter ↦ elim (apply is_object has_scheme e s.reducer) [
        | Reduction.err error ↦ fail (protocol error) (record s { limiter = some limiter })
        | Reduction.ok reducer ↦ (
          record s {
            limiter = some limiter;
            reducer = reducer;
            current = some e;
            terminal_seen = if is_end e.kind then true else s.terminal_seen;
          },
          true,
        )
      ]
    ]
  ]

  -- The second region of `Next`, with what the source has answered.
  unfoldable pub take : Read → EventStream → EventStream × Bool
  unfolding take_event result
  take r s = if s.closed || is_some s.failure then (s, false) else elim r [
    | read e ↦ take_event e s
    | end_of_file ↦
        if not s.terminal_seen
        then fail unexpected_eof s
        else (record s { finished = true; response = result s.reducer }, false)
    | failed context_done of_model ↦
        fail
          (if context_done
            then cancelled
            else if of_model
            then model_error
            else read_error (not s.terminal_seen))
          s
  ]

-- `Close` under the mutex.
unfoldable pub close : EventStream → EventStream
unfolding result
close s =
    if s.closed
    then s
    else if not s.terminal_seen && not (is_some s.failure)
    then record s { closed = true; failure = some cancelled }
    else if s.terminal_seen
    then record s { closed = true; finished = true; response = result s.reducer }
    else record s { closed = true }

-- `Response`; what it stores is what it returns.
unfoldable pub response_of : EventStream → Option Response
unfolding result
response_of s =
    if is_some s.failure || (not s.finished && not s.closed)
    then none
    else if not (is_some s.response) && s.terminal_seen
    then result s.reducer
    else s.response
