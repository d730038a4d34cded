-- ===== src/Models/Limiter/Starts.antt =====
-- The parts and candidates that an event opens in the limiter of core/models/stream_limits.go.
use serpe.Base.{
  ℕ, suc, ◌+◌, ◌≤◌, ◌≡◌, refl, ap, subst, inl, inr, Bool, true, false, not, ◌&&◌, none, List, [],
  ◌∷◌, leb, if◌then◌else◌, length, Assoc, lookup, has, put, remove_absent, pair_eq, nat_eq, arith,
  Comparable, Bool-cases, Option-cases,
}
use serpe.Models.Content.{Test}
use serpe.Models.Event.{
  Event, EventKind, part_start, response_start, part_delta, part_end, response_end, other_event,
  CandidateFinish, validate_event_shape, shape_of, part_payload_shape, is_start,
}
use serpe.Models.Reducer.{index, part_key}
use serpe.Models.Limiter.{
  ok, Limiter, metadata_of, add_finishes, is_tool_call, check_start, note_start,
}

-- What has been counted is within the limits.
pub record IsWithin (l : Limiter) : Type 0 where
  pub events : l.events ≤ l.limits.max_events
  pub turn_bytes : l.turn_bytes ≤ l.limits.max_turn_bytes
  pub metadata_entries : l.metadata_entries ≤ l.limits.max_metadata_entries
  pub tool_calls : l.tool_calls ≤ l.limits.max_tool_calls
  pub candidates : length l.candidates ≤ l.limits.max_candidates
  pub parts : length l.parts ≤ l.limits.max_parts

length-put_absent {ℓ κ} :
    {K : Type ℓ} {V : Type κ} ⦃c : Comparable K⦄ (k : K) (v : V) (m : Assoc K V)
    → has k m ≡ false
    → length (put k v m) ≡ suc (length m)
unfolding put
length-put_absent k v m h = elim (Option-cases (lookup k m)) [
  | inl missing ↦ ap (λ (l : Assoc _ _). suc (length l)) (remove_absent k m missing)
  | inr (w, found) ↦ absurd (cc (h, found))
]

add_finishes_bound :
    (limit : ℕ) (fs : List CandidateFinish) (m n : Assoc ℕ (Unit {0}))
    → length m ≤ limit
    → add_finishes limit fs m ≡ ok n
    → length n ≤ limit
unfolding add_finishes
add_finishes_bound limit [] m n le h = ground arith
add_finishes_bound limit (f ∷ fs) m n le h = elim (Bool-cases (has (index f.candidate_index) m)) [
  | inl known ↦ add_finishes_bound limit fs m n le (rw known at h)
  | inr new ↦ elim (Bool-cases (leb limit (length m))) [
    | inl full ↦ absurd (ground arith)
    | inr room ↦
        add_finishes_bound limit fs (put (index f.candidate_index) tt m) n
          (ground (arith, length-put_absent (index f.candidate_index) tt m new))
          (rw (new, room) at h)
  ]
]

-- The event that opens a part has no finishes.
pub start_no_finishes :
    (is_object has_scheme : Test) (e : Event)
    → is_start e.kind ≡ true
    → validate_event_shape is_object has_scheme e ≡ none
    → e.finishes ≡ []
unfolding validate_event_shape shape_of part_payload_shape
start_no_finishes is_object has_scheme e s h = shaped e.kind s h
  where
    no_entry : (fs : List CandidateFinish) → length fs ≡ 0 → fs ≡ []
    no_entry [] h = refl
    no_entry (f ∷ fs) h = absurd (omega (arith, h))

    shaped :
        (k : EventKind)
        → is_start k ≡ true
        → shape_of is_object has_scheme k e ≡ none
        → e.finishes ≡ []
    shaped part_start s h = no_entry e.finishes (ground arith)
    shaped response_start s h = cc
    shaped part_delta s h = cc
    shaped part_end s h = cc
    shaped response_end s h = cc
    shaped (other_event name) s h = cc

module _ (e : Event) (l : Limiter) (within : IsWithin l) (checked : check_start e l ≡ none) where
  tool_calls_bound :
      (is_tool_call e && leb l.limits.max_tool_calls l.tool_calls) ≡ false
      → (if is_tool_call e then suc l.tool_calls else l.tool_calls) ≤ l.limits.max_tool_calls
  tool_calls_bound h = counted (is_tool_call e) h
    where
      counted :
          (b : Bool)
          → (b && leb l.limits.max_tool_calls l.tool_calls) ≡ false
          → (if b then suc l.tool_calls else l.tool_calls) ≤ l.limits.max_tool_calls
      counted b h = ground (arith, within.tool_calls)

  parts_bound :
      length (
        if is_start e.kind && not (has (part_key e) l.parts)
        then put (part_key e) e.part.kind l.parts
        else l.parts)
      ≤ l.limits.max_parts
  unfolding check_start
  parts_bound = elim (Bool-cases (has (part_key e) l.parts)) [
    | inl known ↦ ground (arith, within.parts)
    | inr new ↦ ground (arith, within.parts, length-put_absent (part_key e) e.part.kind l.parts new)
  ]

  candidates_bound :
      (candidates : Assoc ℕ (Unit {0}))
      → add_finishes l.limits.max_candidates e.finishes l.candidates ≡ ok candidates
      → (is_start e.kind ≡ true → e.finishes ≡ [])
      → length (
          if is_start e.kind && not (has (index e.candidate_index) l.candidates)
          then put (index e.candidate_index) tt candidates
          else candidates)
        ≤ l.limits.max_candidates
  unfolding check_start add_finishes
  candidates_bound candidates added no_finishes =
      let limit = l.limits.max_candidates in
      let i = index e.candidate_index in
      let bound =
        add_finishes_bound limit e.finishes l.candidates candidates within.candidates added in
      elim (Bool-cases (is_start e.kind)) [
        | inr other ↦ rw other bound
        | inl starts ↦ elim (Bool-cases (has i l.candidates)) [
          | inl known ↦ rw (starts, known) bound
          | inr new ↦
              let same : candidates ≡ l.candidates = ground (
                arith,
                subst
                    (λ (fs : List CandidateFinish).
                      add_finishes limit fs l.candidates ≡ ok candidates)
                    (no_finishes starts) added,
              ) in
              rw (starts, new, same) (ground (arith, length-put_absent i tt l.candidates new))
        ]
      ]

  pub note_start-IsWithin :
      (candidates : Assoc ℕ (Unit {0}))
      → metadata_of e.response + l.metadata_entries ≤ l.limits.max_metadata_entries
      → add_finishes l.limits.max_candidates e.finishes l.candidates ≡ ok candidates
      → (is_start e.kind ≡ true → e.finishes ≡ [])
      → (is_tool_call e && leb l.limits.max_tool_calls l.tool_calls) ≡ false
      → IsWithin (note_start e candidates l)
  unfolding note_start
  note_start-IsWithin candidates meta added no_finishes calls = record {
    events = within.events;
    turn_bytes = within.turn_bytes;
    metadata_entries = omega (arith, meta);
    tool_calls = tool_calls_bound calls;
    candidates = candidates_bound candidates added no_finishes;
    parts = parts_bound;
  }
