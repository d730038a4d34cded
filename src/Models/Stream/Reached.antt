-- ===== src/Models/Stream/Reached.antt =====
-- The states of a stream of core/models/stream.go, whatever its source answers and whenever it is
-- closed, and what they hold.
use serpe.Base.{
  Fallible-cases, ℕ, ◌≡◌, ◌⊎◌, inl, inr, refl, sym, ap, subst, ◌∙◌, Bool, true, false, not, ◌&&◌,
  Option, none, some, List, [], ◌∷◌, ◌++◌, if◌then◌else◌, is_some, Bytes, ℤ, arith,
}
use serpe.Models.Content.{Test}
use serpe.Models.Event.{Event}
use serpe.Models.Limiter as Limits
use serpe.Models.Reducer as Reduction
use serpe.Models.Reducer.{ReduceError, Reducer, Response, new_reducer}
use serpe.Models.Reducer.Apply.{reduce, result}
use serpe.Models.Limiter.{LimitError, StreamLimits, Limiter, new_limiter, accept, accept_all}
use serpe.Models.Stream.{
  cancelled, Read, read, StreamError, EventStream, configured_limits, new_stream, take, close,
}

module _ (is_object has_scheme : Test) (frame : Event → ℕ → Option ℕ) (provider : Bytes)
    (given : Option (StreamLimits ℤ)) (has_source : Bool) where
  -- The states that a stream comes to, with the events that it has delivered.
  pub data Reached : List Event → EventStream → Type 0 where
    fresh : Reached [] (new_stream provider given has_source)
    delivered :
        {es : List Event} {s t : EventStream} (e : Event)
        → Reached es s
        → take is_object has_scheme frame (read e) s ≡ (t, true)
        → Reached (es ++ e ∷ []) t
    stopped :
        {es : List Event} {s t : EventStream} (r : Read)
        → Reached es s
        → take is_object has_scheme frame r s ≡ (t, false)
        → Reached es t
    shut : {es : List Event} {s : EventStream} → Reached es s → Reached es (close s)

  -- What a stream that has delivered `es` holds.
  pub record Holds (es : List Event) (s : EventStream) : Type 0 where
    pub reduced : reduce is_object has_scheme es (new_reducer provider) ≡ Reduction.ok s.reducer
    pub accepted :
        s.failure ≡ none
        → (limits : StreamLimits ℕ) × (l : Limiter) × (configured_limits given ≡ Limits.ok limits)
          × (s.limiter ≡ some l)
          × (accept_all is_object has_scheme frame es (new_limiter limits) ≡ Limits.ok l)
    pub terminal : s.terminal_seen ≡ s.reducer.ended
    pub at_end : s.finished ≡ true → s.terminal_seen ≡ true
    pub when_closed : s.closed ≡ true → s.failure ≡ none → s.terminal_seen ≡ true
    pub answered :
        (s.response ≡ none) ⊎ ((s.terminal_seen ≡ true) × (s.response ≡ result s.reducer))

  pub fresh-Holds : Holds [] (new_stream provider given has_source)
  unfolding new_stream reduce accept_all new_reducer
  fresh-Holds = record {
    reduced = refl;
    accepted = λ h. elim (Fallible-cases (configured_limits given)) [
      | inl (limits, fine) ↦ (limits, new_limiter limits, fine, rw (fine, new_stream) refl, refl)
      | inr (e, refused) ↦ absurd (ground arith)
    ];
    terminal = refl;
    at_end = λ h. absurd (cc (h));
    when_closed = λ h f. absurd (cc (h));
    answered = inl refl;
  }

  -- `close` by what it tests.
  abbrev pub close_when : Bool → Bool → Option StreamError → EventStream → EventStream
  close_when true t f s = s
  close_when false true f s = record s {
    closed = true;
    finished = true;
    response = result s.reducer;
  }
  close_when false false none s = record s { closed = true; failure = some cancelled }
  close_when false false (some e) s = record s { closed = true }

  pub close_when_lem : (s : EventStream) → close s ≡ close_when s.closed s.terminal_seen s.failure s
  unfolding close
  close_when_lem s = tested s.closed s.terminal_seen s.failure
    where
      tested :
          (b t : Bool) (f : Option StreamError)
          → (if b
              then s
              else if not t && not (is_some f)
              then record s { closed = true; failure = some cancelled }
              else if t
              then record s { closed = true; finished = true; response = result s.reducer }
              else record s { closed = true })
            ≡ close_when b t f s
      tested true t f = refl
      tested false true f = refl
      tested false false none = refl
      tested false false (some e) = refl

  pub close_when-Holds :
      (es : List Event) (s : EventStream) (b t : Bool) (f : Option StreamError)
      → s.terminal_seen ≡ t
      → s.failure ≡ f
      → Holds es s
      → Holds es (close_when b t f s)
  close_when-Holds es s true t f p q h = h
  close_when-Holds es s false true f p q h = record {
    reduced = h.reduced;
    accepted = h.accepted;
    terminal = h.terminal;
    at_end = λ f. p;
    when_closed = λ c f. p;
    answered = inr (p, refl);
  }
  close_when-Holds es s false false none p q h = record {
    reduced = h.reduced;
    accepted = λ f. absurd (cc (f));
    terminal = h.terminal;
    at_end = h.at_end;
    when_closed = λ c f. absurd (cc (f));
    answered = h.answered;
  }
  close_when-Holds es s false false (some e) p q h = record {
    reduced = h.reduced;
    accepted = h.accepted;
    terminal = h.terminal;
    at_end = h.at_end;
    when_closed = λ c f. absurd (cc (f, q));
    answered = h.answered;
  }

  -- A failed call changes nothing that the response is made of.
  pub record Fails (s t : EventStream) : Type 0 where
    pub error : StreamError
    pub failure : t.failure ≡ some error
    pub reducer : t.reducer ≡ s.reducer
    pub terminal_seen : t.terminal_seen ≡ s.terminal_seen
    pub finished : t.finished ≡ s.finished
    pub response : t.response ≡ s.response

  pub Fails-Holds : (es : List Event) (s t : EventStream) → Fails s t → Holds es s → Holds es t
  Fails-Holds es s t x h = record {
    reduced = h.reduced ∙ ap Reduction.ok (sym x.reducer);
    accepted = λ f. absurd (cc (f, x.failure));
    terminal = x.terminal_seen ∙ h.terminal ∙ ap (λ (r : Reducer). r.ended) (sym x.reducer);
    at_end = λ f. x.terminal_seen ∙ h.at_end (sym x.finished ∙ f);
    when_closed = λ c f. absurd (cc (f, x.failure));
    answered = answer h.answered;
  }
    where
      answer :
          ((s.response ≡ none) ⊎ ((s.terminal_seen ≡ true) × (s.response ≡ result s.reducer)))
          → (t.response ≡ none) ⊎ ((t.terminal_seen ≡ true) × (t.response ≡ result t.reducer))
      answer (inl h) = inl (x.response ∙ h)
      answer (inr (h, k)) = inr (x.terminal_seen ∙ h, x.response ∙ k ∙ ap result (sym x.reducer))

  pub fail-Fails :
      (error : StreamError) (s t : EventStream)
      → (record s { failure = some error } ≡ t)
      → Fails s t
  fail-Fails error s t same = subst (Fails s) same (record {
    error = error;
    failure = refl;
    reducer = refl;
    terminal_seen = refl;
    finished = refl;
    response = refl;
  })
