-- ===== src/Examples/Reducer.antt =====
-- A stream of one text in two deltas.
use serpe.Base.{
  ◌≡◌, refl, true, not, Option, none, some, List, [], ◌∷◌, ◌++◌, ◌==◌, Bytes, bytes_eq, bytes_beq,
  codes, pos, nat_eq, pair_eq, lookup,
}
use serpe.Models.Content.{Content, ContentKind, text_kind, other_kind, Test, validate}
use serpe.Models.Event.{
  Event, EventKind, response_start, part_start, part_delta, part_end, response_end, text_delta,
  other_delta, ResponseInfo,
}
use serpe.Models.Reducer.{Part, Response, Reducer, Result, ok, err, new_reducer}
use serpe.Models.Reducer.Apply.{reduce, result}
use serpe.Models.Reducer.Payload.{payload}
use serpe.Models.Reducer.History.{opening, written}
use serpe.Models.Reducer.Written.{reduce-written}
use serpe.Models.Reducer.Ordered.{AreOrdered, result-AreOrdered}

abbrev pub no_test : Test
no_test bytes = not (bytes == bytes)

abbrev pub block : ContentKind → Option Bytes → Content
block kind text = record {
  kind = kind;
  text = text;
  image = none;
  tool_call = none;
  tool_result = none;
  reasoning_summary = none;
  refusal = none;
}

abbrev pub info : ResponseInfo
info = record {
  provider = codes "p";
  id = codes "r1";
  model = [];
  status = [];
  request_id = [];
  created_at = none;
  metadata = none;
  provider_state = none;
}

abbrev pub event : EventKind → Event
event kind = record {
  kind = kind;
  candidate_index = pos 0;
  part_index = pos 0;
  part = block (other_kind []) none;
  delta = record { kind = other_delta []; text = []; media = [] };
  response = none;
  finishes = [];
  usage = none;
  provider_event_id = [];
  item_id = [];
  call_id = [];
}

abbrev pub text_event : Bytes → Event
text_event bytes = record (event part_delta) {
  delta = record { kind = text_delta; text = bytes; media = [] };
}

abbrev pub stream : List Event
stream =
    record (event response_start) { response = some info }
    ∷ record (event part_start) { part = block text_kind (some (codes "a")) }
    ∷ text_event (codes "b")
    ∷ text_event (codes "c")
    ∷ event part_end
    ∷ record (event response_end) { response = some info }
    ∷ []

abbrev pub reducer_or_new : Result Reducer → Reducer
reducer_or_new (ok r) = r
reducer_or_new (err e) = new_reducer []

abbrev response_or : Response → Option Response → Response
response_or new none = new
response_or new (some response) = response

abbrev pub final : Reducer
final = reducer_or_new (reduce no_test no_test stream (new_reducer []))

reduced : reduce no_test no_test stream (new_reducer []) ≡ ok final
unfolding reduce new_reducer bytes_beq
reduced = refl

finished : result final ≡ some final.response
unfolding reduce new_reducer bytes_beq result
finished = refl

abbrev part : Part
part = record {
  content = block text_kind (some (codes "abc"));
  text = codes "bc";
  args = [];
  media = [];
  ended = true;
}

found : lookup (0, 0) final.parts ≡ some part
unfolding reduce new_reducer bytes_beq lookup
found = refl

reduce-written_example :
    (c : Content) × (opening (0, 0) stream ≡ some c)
    × (text_kind ≡ c.kind)
    × (payload part.content ≡ payload c ++ written (0, 0) stream)
    × (validate no_test no_test part.content ≡ none)
reduce-written_example =
    reduce-written no_test no_test [] stream final (0, 0) part reduced found refl

result-AreOrdered_example : AreOrdered no_test no_test stream 0 final.response.candidates
result-AreOrdered_example =
    result-AreOrdered no_test no_test [] stream final final.response reduced finished
