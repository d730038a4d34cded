-- ===== src/Models/Stream/Applied.antt =====
-- What one more event of the stream of core/models/stream.go does in the reducer and in the limiter.
use serpe.Base.{
  bind_inv, ℕ, ◌≡◌, ◌⊎◌, inl, inr, refl, subst, ◌∙◌, true, false, Option, List, [], ◌∷◌, ◌++◌,
  arith,
}
use serpe.Models.Content.{Test}
use serpe.Models.Event.{
  Event, EventKind, response_start, part_start, part_delta, part_end, response_end, other_event,
}
use serpe.Models.Limiter as Limits
use serpe.Models.Reducer as Reduction
use serpe.Models.Reducer.{ReduceError, Reducer, Response, new_reducer}
use serpe.Models.Reducer.Parts.{start, start_part, delta_part, end_part}
use serpe.Models.Reducer.Finish.{end, finish_response}
use serpe.Models.Reducer.Apply.{apply, apply_kind, reduce}
use serpe.Models.Limiter.{LimitError, StreamLimits, Limiter, new_limiter, accept, accept_all}
use serpe.Models.Reducer.Apply.{reduce_inv}
use serpe.Models.Stream.{is_end}

module _ (is_object has_scheme : Test) (frame : Event → ℕ → Option ℕ) where
  pub reduce-append :
      (es : List Event) (e : Event) (r s t : Reducer)
      → reduce is_object has_scheme es r ≡ Reduction.ok s
      → apply is_object has_scheme e s ≡ Reduction.ok t
      → reduce is_object has_scheme (es ++ e ∷ []) r ≡ Reduction.ok t
  unfolding reduce
  reduce-append [] e r s t h a =
      subst (λ (r : Reducer). reduce is_object has_scheme (e ∷ []) r ≡ Reduction.ok t) {x = s}
        (cc (h)) (rw (a, reduce) refl)
  reduce-append (d ∷ es) e r s t h a =
      let (r', applied, rest) = reduce_inv is_object has_scheme d es r s h in
      rw (applied, reduce) (reduce-append es e r' s t rest a)

  pub accept_all-append :
      (es : List Event) (e : Event) (l m n : Limiter)
      → accept_all is_object has_scheme frame es l ≡ Limits.ok m
      → accept is_object has_scheme frame e m ≡ Limits.ok n
      → accept_all is_object has_scheme frame (es ++ e ∷ []) l ≡ Limits.ok n
  unfolding accept_all
  accept_all-append [] e l m n h a =
      subst (λ (l : Limiter). accept_all is_object has_scheme frame (e ∷ []) l ≡ Limits.ok n)
        {x = m} (cc (h)) (rw a refl)
  accept_all-append (d ∷ es) e l m n h a =
      let (l', accepted, rest) = bind_inv (accept is_object has_scheme frame d l) _ h in
      rw accepted (accept_all-append es e l' m n rest a)

end-ended : (e : Event) (r s : Reducer) → end e r ≡ Reduction.ok s → s.ended ≡ true
unfolding end finish_response
end-ended e r s h = ground arith

part-ended :
    (is_object has_scheme : Test) (e : Event) (r s : Reducer)
    → ((start_part e r ≡ Reduction.ok s)
        ⊎ (delta_part e r ≡ Reduction.ok s)
        ⊎ (end_part is_object has_scheme e r ≡ Reduction.ok s))
    → s.ended ≡ r.ended
unfolding start_part delta_part end_part
part-ended is_object has_scheme e r s (inl h) = ground arith
part-ended is_object has_scheme e r s (inr (inl h)) = ground arith
part-ended is_object has_scheme e r s (inr (inr h)) = ground arith

apply_kind-ended :
    (is_object has_scheme : Test) (k : EventKind) (e : Event) (r s : Reducer)
    → r.ended ≡ false
    → apply_kind is_object has_scheme k e r ≡ Reduction.ok s
    → s.ended ≡ is_end k
unfolding apply_kind start
apply_kind-ended is_object has_scheme response_start e r s f h = ground arith
apply_kind-ended is_object has_scheme part_start e r s f h =
    part-ended is_object has_scheme e r s (inl h) ∙ f
apply_kind-ended is_object has_scheme part_delta e r s f h =
    part-ended is_object has_scheme e r s (inr (inl h)) ∙ f
apply_kind-ended is_object has_scheme part_end e r s f h =
    part-ended is_object has_scheme e r s (inr (inr h)) ∙ f
apply_kind-ended is_object has_scheme response_end e r s f h = end-ended e r s h
apply_kind-ended is_object has_scheme (other_event name) e r s f h = absurd (cc (h))

-- A reducer that has ended takes no event, and only the end of the response ends it.
pub apply-ended :
    (is_object has_scheme : Test) (e : Event) (r s : Reducer)
    → apply is_object has_scheme e r ≡ Reduction.ok s
    → (r.ended ≡ false) × (s.ended ≡ is_end e.kind)
unfolding apply
apply-ended is_object has_scheme e r s h =
    let open_before : r.ended ≡ false = ground arith in
    (open_before, apply_kind-ended is_object has_scheme e.kind e r s open_before (ground arith))
