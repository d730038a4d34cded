-- ===== src/Models/Reducer/Finish.antt =====
-- `end` of core/models/reducer.go: the response of a finished stream.
use serpe.Base.{
  ℕ, Bool, true, not, ◌&&◌, none, some, List, [], ◌∷◌, ◌==◌, ltb, if◌then◌else◌, Assoc, lookup, put,
  all_entries, pair_eq, Bytes, bytes_eq, codes, nat_eq,
}
use serpe.Models.Content.{Content, clone}
use serpe.Models.Event.{Event, ResponseInfo, CandidateFinish}
use serpe.Models.Reducer.{
  Part, CandidateParts, Candidate, Response, PartKey, Reducer, Result, ok, err, index, or_keep,
  or_keep_some, finish_unknown, no_candidate, candidate_or, not_started, open_part,
  provider_changed,
}

unfoldable pub merge_info : ResponseInfo → Response → Response
merge_info info response = record response {
  id = or_keep info.id response.id;
  model = or_keep info.model response.model;
  status = or_keep info.status response.status;
  request_id = or_keep info.request_id response.request_id;
  created_at = or_keep_some info.created_at response.created_at;
  metadata = or_keep_some info.metadata response.metadata;
  provider_state = or_keep_some info.provider_state response.provider_state;
}

unfoldable pub set_finish : CandidateFinish → Assoc ℕ CandidateParts → Assoc ℕ CandidateParts
unfolding lookup put
set_finish f candidates =
    let i = index f.candidate_index in
    let candidate = candidate_or (no_candidate []) (lookup i candidates) in
    put i
      (record candidate {
        finish = if f.reason == [] then finish_unknown else f.reason;
        raw_finish = f.raw_reason;
        provider_state = f.provider_state;
      })
      candidates

unfoldable pub set_finishes : List CandidateFinish → Assoc ℕ CandidateParts → Assoc ℕ CandidateParts
unfolding set_finish
set_finishes [] candidates = candidates
set_finishes (f ∷ fs) candidates = set_finishes fs (set_finish f candidates)

-- `slices.Sorted(maps.Keys(m))`
unfoldable pub insert_index : ℕ → List ℕ → List ℕ
insert_index i [] = i ∷ []
insert_index i (j ∷ js) = if ltb j i then j ∷ insert_index i js else i ∷ j ∷ js

unfoldable pub sorted_keys {ℓ} : {V : Type ℓ} → Assoc ℕ V → List ℕ
unfolding insert_index
sorted_keys [] = []
sorted_keys ((i, v) ∷ m) = insert_index i (sorted_keys m)

-- The contents of the parts of candidate `i`.
unfoldable pub contents_of : ℕ → List ℕ → Assoc PartKey Part → List Content
unfolding lookup clone
contents_of i [] parts = []
contents_of i (j ∷ js) parts =
    let rest = contents_of i js parts in
    elim (lookup (i, j) parts) [ none ↦ rest | some p ↦ clone p.content ∷ rest ]

unfoldable pub candidates_of : List ℕ → Assoc ℕ CandidateParts → Assoc PartKey Part → List Candidate
unfolding lookup sorted_keys contents_of
candidates_of [] candidates parts = []
candidates_of (i ∷ indexes) candidates parts =
    let rest = candidates_of indexes candidates parts in
    elim (lookup i candidates) [
      | none ↦ rest
      | some c ↦
          record {
            index = i;
            contents = contents_of i (sorted_keys c.parts) parts;
            finish_reason = if c.finish == [] then finish_unknown else c.finish;
            raw_finish_reason = c.raw_finish;
            provider_state = c.provider_state;
          }
          ∷ rest
    ]

abbrev pub status_completed : Bytes
status_completed = codes "completed"

-- `end` once its tests have passed.
unfoldable pub finish_response : Event → Response → Reducer → Reducer
unfolding set_finishes sorted_keys candidates_of
finish_response e merged r =
    let candidates = set_finishes e.finishes r.candidates in
    record r {
      candidates = candidates;
      response = record merged {
        usage = elim e.usage [ none ↦ merged.usage | some usage ↦ usage ];
        candidates = candidates_of (sorted_keys candidates) candidates r.parts;
        status = if merged.status == [] then status_completed else merged.status;
      };
      ended = true;
    }

abbrev pub is_part_ended : PartKey → Part → Bool
is_part_ended key p = p.ended

unfoldable pub end : Event → Reducer → Result Reducer
unfolding all_entries merge_info finish_response
end e r =
    if not r.started
    then err not_started
    else if not (all_entries is_part_ended r.parts)
    then err open_part
    else elim e.response [
      | none ↦ ok (finish_response e r.response r)
      | some info ↦
          if not (info.provider == []) && not (info.provider == r.response.provider)
          then err provider_changed
          else ok (finish_response e (merge_info info r.response) r)
    ]
