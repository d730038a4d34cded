-- ===== src/Models/Reducer/Change.antt =====
-- What one event of core/models/reducer.go does to the parts.
use serpe.Base.{
  ◌≡◌, refl, inl, inr, arith, Option-cases, true, false, none, some, Assoc, lookup, put, pair_eq,
  bytes_eq, nat_eq,
}
use serpe.Models.Content.{Test, clone}
use serpe.Models.Event.{
  is_part_event, Event, EventKind, response_start, part_start, part_delta, part_end, response_end,
  other_event, ResponseInfo,
}
use serpe.Models.Reducer.{Part, Response, PartKey, Reducer, Result, ok, err, part_key}
use serpe.Models.Reducer.Parts.{
  close_part, new_part, accepts_delta, write_delta, start, start_part, delta_part, end_part,
}
use serpe.Models.Reducer.Finish.{end, finish_response, merge_info}
use serpe.Models.Reducer.Apply.{apply, apply_kind}

abbrev pub Parts : Type 0
Parts = Assoc PartKey Part

finish_response-parts :
    (e : Event) (m : Response) (r : Reducer)
    → ((finish_response e m r).parts ≡ r.parts) × ((finish_response e m r).ended ≡ true)
unfolding finish_response
finish_response-parts e m r = (refl, refl)

end-parts : (e : Event) (r s : Reducer) → end e r ≡ ok s → s.parts ≡ r.parts
unfolding end
end-parts e r s h = ground (
  arith,
  finish_response-parts e r.response r,
  λ (info : ResponseInfo). finish_response-parts e (merge_info info r.response) r,
)

start-parts : (info : ResponseInfo) (r s : Reducer) → start info r ≡ ok s → s.parts ≡ r.parts
unfolding start
start-parts info r s h = ground arith

module _ (is_object has_scheme : Test) where
  pub data Change (e : Event) (r s : Reducer) : Type 0 where
    same : is_part_event e.kind ≡ false → s.parts ≡ r.parts → Change e r s
    opened :
        e.kind ≡ part_start
        → lookup (part_key e) r.parts ≡ none
        → s.parts ≡ put (part_key e) (new_part (clone e.part)) r.parts
        → Change e r s
    filled :
        (p : Part)
        → e.kind ≡ part_delta
        → lookup (part_key e) r.parts ≡ some p
        → p.ended ≡ false
        → accepts_delta e.delta.kind p.content ≡ true
        → s.parts ≡ put (part_key e) (write_delta e.delta.kind e.delta p) r.parts
        → Change e r s
    closed :
        (p q : Part)
        → e.kind ≡ part_end
        → lookup (part_key e) r.parts ≡ some p
        → p.ended ≡ false
        → close_part is_object has_scheme p ≡ ok q
        → s.parts ≡ put (part_key e) q r.parts
        → Change e r s

  start_part-Change :
      (e : Event) (r s : Reducer) → e.kind ≡ part_start → start_part e r ≡ ok s → Change e r s
  unfolding start_part
  start_part-Change e r s k h = opened k (ground arith) (ground arith)

  delta_part-Change :
      (e : Event) (r s : Reducer) → e.kind ≡ part_delta → delta_part e r ≡ ok s → Change e r s
  unfolding delta_part
  delta_part-Change e r s k h = elim (Option-cases (lookup (part_key e) r.parts)) [
    | inl missing ↦ absurd (ground arith)
    | inr (p, found) ↦ filled p k found (ground arith) (ground arith) (ground arith)
  ]

  end_part-Change :
      (e : Event) (r s : Reducer)
      → e.kind ≡ part_end
      → end_part is_object has_scheme e r ≡ ok s
      → Change e r s
  unfolding end_part
  end_part-Change e r s k h = elim (Option-cases (lookup (part_key e) r.parts)) [
    | inl missing ↦ absurd (ground arith)
    | inr (p, found) ↦ ended p found (close_part is_object has_scheme p) refl
  ]
    where
      ended :
          (p : Part)
          → lookup (part_key e) r.parts ≡ some p
          → (c : Result Part) → close_part is_object has_scheme p ≡ c
          → Change e r s
      ended p found (err x) done = absurd (ground arith)
      ended p found (ok q) done = closed p q k found (ground arith) done (ground arith)

  apply_kind-Change :
      (k : EventKind) (e : Event) (r s : Reducer)
      → e.kind ≡ k
      → apply_kind is_object has_scheme k e r ≡ ok s
      → Change e r s
  unfolding apply_kind
  apply_kind-Change response_start e r s k h = elim (Option-cases e.response) [
    | inl missing ↦ absurd (ground arith)
    | inr (info, some_info) ↦ same (ground arith) (start-parts info r s (ground (arith, some_info)))
  ]
  apply_kind-Change part_start e r s k h = start_part-Change e r s k h
  apply_kind-Change part_delta e r s k h = delta_part-Change e r s k h
  apply_kind-Change part_end e r s k h = end_part-Change e r s k h
  apply_kind-Change response_end e r s k h = same (ground arith) (end-parts e r s h)
  apply_kind-Change (other_event name) e r s k h = absurd (ground arith)

  pub apply-Change :
      (e : Event) (r s : Reducer) → apply is_object has_scheme e r ≡ ok s → Change e r s
  unfolding apply
  apply-Change e r s h = apply_kind-Change e.kind e r s refl (ground arith)
