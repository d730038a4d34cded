-- ===== src/Examples/Stream.antt =====
-- A stream that delivers the events of one text and ends, with frames of a hundred bytes.
use serpe.Base.{
  Bytes, codes, valid_string, if◌then◌else◌, ◌&&◌, leb, arith, ℕ, ◌≡◌, refl, true, false, none,
  some, List, [], ◌∷◌, Option, pair_eq, bytes_eq, nat_eq, bytes_beq, ◌≤◌, length, ◌++◌,
}
use mathlib.Core.List.{append-nil, append_assoc}
use serpe.Models.Event.{Event}
use serpe.Models.Limiter as Limits
use serpe.Models.Limiter.{Limiter, StreamLimits, new_limiter, accept_all}
use serpe.Models.Limiter.Steps.{size_or_zero}
use serpe.Models.Limiter.Within.{total, calls_of, accept_all-within_limits}
use serpe.Models.Limiter.{metadata_of}
use serpe.Models.Reducer as Reduction
use serpe.Models.Reducer.{Reducer, new_reducer}
use serpe.Models.Reducer.Apply.{reduce, result}
use serpe.Models.Stream.{
  EventStream, Read, read, end_of_file, new_stream, take, response_of, configured_limits,
}
use serpe.Models.Stream.Reached.{Reached, fresh, delivered, stopped}
use serpe.Models.Stream.Answer.{response_of-delivered}
use serpe.Models.Frame.{event_frame}
use serpe.Models.Frame.Sum.{event_cost}
use serpe.Models.Frame.Counted.{event_frame-eq-cost}
use serpe.Examples.Reducer.{no_test, text_event, stream, final}

abbrev frame : Event → ℕ → Option ℕ
frame e max = some 100

abbrev limits : StreamLimits ℕ
limits = record {
  max_event_bytes = 512;
  max_turn_bytes = 1024;
  max_events = 6;
  max_candidates = 1;
  max_parts = 1;
  max_metadata_entries = 1;
  max_tool_calls = 1;
}

abbrev limiter_or_new : Limits.Result Limiter → Limiter
limiter_or_new (Limits.ok l) = l
limiter_or_new (Limits.err e) = new_limiter limits

abbrev counted : Limiter
counted = limiter_or_new (accept_all no_test no_test frame stream (new_limiter limits))

accepted : accept_all no_test no_test frame stream (new_limiter limits) ≡ Limits.ok counted
unfolding accept_all new_limiter bytes_beq
accepted = refl

accept_all-within_limits_example :
    (length stream ≤ 6)
    × (total (λ e. size_or_zero (frame e 512)) stream ≤ 1024)
    × (total (λ e. metadata_of e.response) stream ≤ 1)
    × (total calls_of stream ≤ 1)
    × (length counted.candidates ≤ 1)
    × (length counted.parts ≤ 1)
accept_all-within_limits_example =
    accept_all-within_limits no_test no_test frame limits stream counted accepted

abbrev begun : EventStream
begun = new_stream [] none true

abbrev after : Read → EventStream → EventStream
after r s = (take no_test no_test frame r s).0

abbrev Delivers : Event → EventStream → Type 0
Delivers e s = take no_test no_test frame (read e) s ≡ (after (read e) s, true)

-- The state after the first events of a list, while all are delivered.
abbrev DeliversAll : List Event → EventStream → Type 0
DeliversAll [] s = Unit
DeliversAll (e ∷ es) s = Delivers e s × DeliversAll es (after (read e) s)

abbrev after_all : List Event → EventStream → EventStream
after_all [] s = s
after_all (e ∷ es) s = after_all es (after (read e) s)

abbrev Reaches : List Event → EventStream → Type 0
Reaches = Reached no_test no_test frame [] none true

reaches :
    (es ds : List Event) (s : EventStream)
    → Reaches ds s
    → DeliversAll es s
    → Reaches (ds ++ es) (after_all es s)
reaches [] ds s r d = rw append-nil r
reaches (e ∷ es) ds s r d =
    rw (← append_assoc ds (e ∷ []) es)
      (reaches es (ds ++ e ∷ []) (after (read e) s) (delivered e r d.0) d.1)

all_delivered : DeliversAll stream begun
unfolding take new_stream bytes_beq
all_delivered = (refl, (refl, (refl, (refl, (refl, (refl, tt))))))

abbrev last : EventStream
last = after end_of_file (after_all stream begun)

ends : take no_test no_test frame end_of_file (after_all stream begun) ≡ (last, false)
unfolding take new_stream bytes_beq
ends = refl

reached : Reaches stream last
reached = stopped end_of_file (reaches stream [] begun fresh all_delivered) ends

given : response_of last ≡ some final.response
unfolding take new_stream bytes_beq response_of reduce new_reducer
given = refl

response_of-delivered_example :
    (r : Reducer) × (limits : StreamLimits ℕ) × (l : Limiter) × (reduce no_test no_test stream
        (new_reducer [])
      ≡ Reduction.ok r)
    × (result r ≡ some final.response)
    × (configured_limits none ≡ Limits.ok limits)
    × (accept_all no_test no_test frame stream (new_limiter limits) ≡ Limits.ok l)
response_of-delivered_example =
    response_of-delivered no_test no_test frame [] none true reached given

abbrev no_time : Option ℕ → Bytes
no_time t = []

-- An event of one delta counts for its eleven nodes and their texts.
event_frame-eq-cost_example : event_frame no_time (text_event (codes "b")) 512 ≡ (
    if (event_cost no_time (text_event (codes "b"))).fine
      && leb (event_cost no_time (text_event (codes "b"))).size 512
    then some (event_cost no_time (text_event (codes "b"))).size
    else none)
event_frame-eq-cost_example = event_frame-eq-cost no_time (text_event (codes "b")) 512 (omega arith)

counted_size : event_frame no_time (text_event (codes "b")) 512 ≡ some 212
unfolding event_frame valid_string
counted_size = refl
