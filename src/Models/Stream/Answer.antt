-- ===== src/Models/Stream/Answer.antt =====
-- The response of a stream of core/models/stream.go.
use serpe.Base.{
  Fallible-cases, ℕ, ◌≡◌, ◌⊎◌, inl, inr, refl, sym, subst, ◌∙◌, Bool, true, false, not, ◌||◌,
  Option, none, some, List, [], ◌∷◌, ◌++◌, if◌then◌else◌, is_some, Bytes, ℤ, arith, Bool-cases,
}
use serpe.Models.Content.{Test}
use serpe.Models.Event.{Event}
use serpe.Models.Limiter as Limits
use serpe.Models.Reducer as Reduction
use serpe.Models.Reducer.{ReduceError, Reducer, Response, new_reducer}
use serpe.Models.Reducer.Apply.{apply, reduce, result}
use serpe.Models.Limiter.{LimitError, StreamLimits, Limiter, new_limiter, accept, accept_all}
use serpe.Models.Stream.{
  unexpected_eof, model_error, read_error, response_limit, protocol, cancelled, Read, read,
  end_of_file, failed, EventStream, configured_limits, take_event, take, is_end,
}
use serpe.Models.Stream.{response_of}
use serpe.Models.Stream.Applied.{reduce-append, accept_all-append, apply-ended}
use serpe.Models.Stream.Reached as R
use serpe.Models.Stream.Reached.{Reached, fresh, delivered, stopped, shut}

module _ (is_object has_scheme : Test) (frame : Event → ℕ → Option ℕ) (provider : Bytes)
    (given : Option (StreamLimits ℤ)) (has_source : Bool) where
  abbrev Holds : List Event → EventStream → Type 0
  Holds = R.Holds is_object has_scheme frame provider given has_source

  abbrev Fails : EventStream → EventStream → Type 0
  Fails = R.Fails is_object has_scheme frame provider given has_source

  -- An event that is delivered has passed the limiter and the reducer.
  record Delivers (e : Event) (s t : EventStream) (l : Limiter) : Type 0 where
    limiter : Limiter
    reducer : Reducer
    accepted : accept is_object has_scheme frame e l ≡ Limits.ok limiter
    applied : apply is_object has_scheme e s.reducer ≡ Reduction.ok reducer
    delivered :
        record s {
          limiter = some limiter;
          reducer = reducer;
          current = some e;
          terminal_seen = if is_end e.kind then true else s.terminal_seen;
        }
        ≡ t

  take_event-cases :
      (e : Event) (s t : EventStream) (b : Bool) (l : Limiter)
      → s.limiter ≡ some l
      → take_event is_object has_scheme frame e s ≡ (t, b)
      → ((b ≡ true) × Delivers e s t l) ⊎ ((b ≡ false) × Fails s t)
  unfolding take_event
  take_event-cases e s t b l some_l taken =
      elim (Fallible-cases (accept is_object has_scheme frame e l)) [
        | inr (error, refused) ↦ inr (
          ground arith,
          R.fail-Fails is_object has_scheme frame provider given has_source (response_limit error) s
              t (ground arith),
        )
        | inl (m, fits) ↦ elim (Fallible-cases (apply is_object has_scheme e s.reducer)) [
          | inr (error, refused) ↦ inr (
            ground arith,
            subst (Fails s) {x = record s { limiter = some m; failure = some (protocol error) }}
                (ground arith)
                (record {
                  error = protocol error;
                  failure = refl;
                  reducer = refl;
                  terminal_seen = refl;
                  finished = refl;
                  response = refl;
                }),
          )
          | inl (r, applied) ↦ inl (
            ground arith,
            record {
              limiter = m;
              reducer = r;
              accepted = fits;
              applied = applied;
              delivered = ground arith;
            },
          )
        ]
      ]

  Delivers-Holds :
      (es : List Event) (e : Event) (s t : EventStream) (l : Limiter) (limits : StreamLimits ℕ)
      → configured_limits given ≡ Limits.ok limits
      → accept_all is_object has_scheme frame es (new_limiter limits) ≡ Limits.ok l
      → Holds es s
      → Delivers e s t l
      → Holds (es ++ e ∷ []) t
  unfolding result
  Delivers-Holds es e s t l limits fine accepted h d =
      let (still, ended) = apply-ended is_object has_scheme e s.reducer d.reducer d.applied in
      let early : s.terminal_seen ≡ false = h.terminal ∙ still in
      subst (Holds (es ++ e ∷ [])) d.delivered (record {
        reduced =
            reduce-append is_object has_scheme frame es e (new_reducer provider) s.reducer d.reducer
              h.reduced d.applied;
        accepted = λ f. (
          limits,
          d.limiter,
          fine,
          refl,
          accept_all-append is_object has_scheme frame es e (new_limiter limits) l d.limiter
              accepted d.accepted,
        );
        terminal = ground (arith, ended, early);
        at_end = λ f. absurd (cc (h.at_end f, early));
        when_closed = λ c f. absurd (cc (h.when_closed c f, early));
        answered = inl (ground (arith, h.answered));
      })

  -- The end of the source after the end of the response.
  finish-Holds :
      (es : List Event) (s : EventStream)
      → s.terminal_seen ≡ true
      → Holds es s
      → Holds es (record s { finished = true; response = result s.reducer })
  finish-Holds es s terminal h = record {
    reduced = h.reduced;
    accepted = h.accepted;
    terminal = h.terminal;
    at_end = λ f. terminal;
    when_closed = h.when_closed;
    answered = inr (terminal, refl);
  }

  take_event-Holds :
      (es : List Event) (e : Event) (s t : EventStream) (b : Bool)
      → s.failure ≡ none
      → Holds es s
      → take_event is_object has_scheme frame e s ≡ (t, b)
      → Holds (if b then es ++ e ∷ [] else es) t
  take_event-Holds es e s t b f h taken =
      let (limits, l, fine, some_l, accepted) = h.accepted f in
      elim (take_event-cases e s t b l some_l taken) [
        | inl (worked, d) ↦ rw worked (Delivers-Holds es e s t l limits fine accepted h d)
        | inr (broke, x) ↦
            rw broke (R.Fails-Holds is_object has_scheme frame provider given has_source es s t x h)
      ]

  take-delivers :
      (es : List Event) (e : Event) (s t : EventStream)
      → Holds es s
      → take is_object has_scheme frame (read e) s ≡ (t, true)
      → Holds (es ++ e ∷ []) t
  unfolding take
  take-delivers es e s t h taken = take_event-Holds es e s t true (ground arith) h (ground arith)

  take-stops :
      (es : List Event) (r : Read) (s t : EventStream)
      → Holds es s
      → take is_object has_scheme frame r s ≡ (t, false)
      → Holds es t
  unfolding take
  take-stops es r s t h taken = elim (Bool-cases (s.closed || is_some s.failure)) [
    | inl over ↦ subst (Holds es) {x = s} (ground arith) h
    | inr going ↦ stopped_by r taken going (ground arith)
  ]
    where
      stopped_by :
          (r : Read)
          → take is_object has_scheme frame r s ≡ (t, false)
          → (s.closed || is_some s.failure) ≡ false
          → s.failure ≡ none
          → Holds es t
      stopped_by (read e) taken going f = take_event-Holds es e s t false f h (ground arith)
      stopped_by (failed context_done of_model) taken going f =
          R.Fails-Holds is_object has_scheme frame provider given has_source es s t
            (R.fail-Fails is_object has_scheme frame provider given has_source
              (if context_done
                then cancelled
                else if of_model
                then model_error
                else read_error (not s.terminal_seen))
              s t (ground arith))
            h
      stopped_by end_of_file taken going f = elim (Bool-cases s.terminal_seen) [
        | inl terminal ↦
            subst (Holds es) {x = record s { finished = true; response = result s.reducer }}
              (ground arith) (finish-Holds es s terminal h)
        | inr early ↦
            R.Fails-Holds is_object has_scheme frame provider given has_source es s t
              (R.fail-Fails is_object has_scheme frame provider given has_source unexpected_eof s t
                (ground arith))
              h
      ]

  Reached-Holds :
      {es : List Event} {s : EventStream}
      → Reached is_object has_scheme frame provider given has_source es s
      → Holds es s
  Reached-Holds fresh = R.fresh-Holds is_object has_scheme frame provider given has_source
  Reached-Holds (delivered {es} {s} {t} e reached taken) =
      take-delivers es e s t (Reached-Holds reached) taken
  Reached-Holds (stopped {es} {s} {t} r reached taken) =
      take-stops es r s t (Reached-Holds reached) taken
  Reached-Holds (shut {es} {s} reached) =
      subst (Holds es)
        (sym (R.close_when_lem is_object has_scheme frame provider given has_source s))
        (R.close_when-Holds is_object has_scheme frame provider given has_source es s s.closed
          s.terminal_seen s.failure refl refl (Reached-Holds reached))

  -- A response that the stream gives is what the reducer makes of exactly the events that have been
  -- delivered, and these events pass the limiter of the configured limits, whatever the source has
  -- answered and whenever the stream was closed.
  pub response_of-delivered :
      {es : List Event} {s : EventStream} {response : Response}
      → Reached is_object has_scheme frame provider given has_source es s
      → response_of s ≡ some response
      → (r : Reducer) × (limits : StreamLimits ℕ) × (l : Limiter) × (reduce is_object has_scheme es
            (new_reducer provider)
          ≡ Reduction.ok r)
        × (result r ≡ some response)
        × (configured_limits given ≡ Limits.ok limits)
        × (accept_all is_object has_scheme frame es (new_limiter limits) ≡ Limits.ok l)
  unfolding response_of
  response_of-delivered {es} {s} {response} reached gives =
      let h = Reached-Holds reached in
      let (limits, l, fine, some_l, accepted) = h.accepted (ground arith) in
      (s.reducer, limits, l, h.reduced, ground (arith, h.answered), fine, accepted)
