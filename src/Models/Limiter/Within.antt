-- ===== src/Models/Limiter/Within.antt =====
-- The bounds that core/models/stream_limits.go puts on the events of a turn.
use serpe.Base.{
  bind_inv, ◌∙◌, ℕ, ◌+◌, ◌≤◌, ◌≡◌, refl, ap, subst, Option, List, [], ◌∷◌, if◌then◌else◌, length,
  pair_eq, nat_eq, arith,
}
use serpe.Models.Content.{Test}
use serpe.Models.Event.{Event}
use serpe.Models.Limiter.{
  StreamLimits, ok, Limiter, new_limiter, metadata_of, is_tool_call, accept, accept_all,
}
use serpe.Models.Limiter.Starts.{IsWithin}
use serpe.Models.Limiter.Steps.{size_or_zero, accept-Counted}

-- The sum of a number of each event.
abbrev pub total : (Event → ℕ) → List Event → ℕ
total f [] = 0
total f (e ∷ es) = f e + total f es

abbrev pub calls_of : Event → ℕ
calls_of e = if is_tool_call e then 1 else 0

module _ (is_object has_scheme : Test) (frame : Event → ℕ → Option ℕ) where
  -- What the limiter has counted of the events `es`, starting at `l`.
  record Counts (es : List Event) (l m : Limiter) : Type 0 where
    limits : m.limits ≡ l.limits
    events : m.events ≡ length es + l.events
    turn_bytes :
        m.turn_bytes
        ≡ total (λ e. size_or_zero (frame e l.limits.max_event_bytes)) es + l.turn_bytes
    metadata_entries :
        m.metadata_entries ≡ total (λ e. metadata_of e.response) es + l.metadata_entries
    tool_calls : m.tool_calls ≡ total calls_of es + l.tool_calls

  accept_all-Counts :
      (es : List Event) (l m : Limiter)
      → IsWithin l
      → accept_all is_object has_scheme frame es l ≡ ok m
      → IsWithin m × Counts es l m
  unfolding accept_all
  accept_all-Counts [] l m within h =
      subst (λ (m : Limiter). IsWithin m × Counts [] l m) (cc (h))
        (
          within,
          record {
            limits = refl;
            events = omega arith;
            turn_bytes = omega arith;
            metadata_entries = omega arith;
            tool_calls = omega arith;
          },
        )
  accept_all-Counts (e ∷ es) l m within h =
      let (n, accepted, rest) = bind_inv (accept is_object has_scheme frame e l) _ h in
      let (inside, one) = accept-Counted is_object has_scheme frame e l n within accepted in
      let size : ℕ → Event → ℕ = λ max e. size_or_zero (frame e max) in
      let (final, more) = accept_all-Counts es n m inside rest in
      (
        final,
        record {
          limits = more.limits ∙ one.limits;
          events = omega (arith, more.events, one.events);
          turn_bytes =
              let bytes =
                subst
                  (λ (k : StreamLimits ℕ).
                    m.turn_bytes ≡ total (size k.max_event_bytes) es + n.turn_bytes)
                  one.limits more.turn_bytes in
              omega (arith, bytes, one.turn_bytes);
          metadata_entries = omega (arith, more.metadata_entries, one.metadata_entries);
          tool_calls = ground (arith, more.tool_calls, one.tool_calls);
        },
      )

  -- An accepted turn has no more events, bytes of frames, entries of metadata and tool calls than its
  -- limits allow, and the candidates and parts that it opens are within theirs.
  pub accept_all-within_limits :
      (limits : StreamLimits ℕ) (es : List Event) (l : Limiter)
      → accept_all is_object has_scheme frame es (new_limiter limits) ≡ ok l
      → (length es ≤ limits.max_events)
        × (total (λ e. size_or_zero (frame e limits.max_event_bytes)) es ≤ limits.max_turn_bytes)
        × (total (λ e. metadata_of e.response) es ≤ limits.max_metadata_entries)
        × (total calls_of es ≤ limits.max_tool_calls)
        × (length l.candidates ≤ limits.max_candidates)
        × (length l.parts ≤ limits.max_parts)
  unfolding new_limiter
  accept_all-within_limits limits es l h =
      let fresh : IsWithin (new_limiter limits) = record {
        events = omega arith;
        turn_bytes = omega arith;
        metadata_entries = omega arith;
        tool_calls = omega arith;
        candidates = omega arith;
        parts = omega arith;
      } in
      let (within, counts) = accept_all-Counts es (new_limiter limits) l fresh h in
      bounded l within counts.limits counts.events counts.turn_bytes counts.metadata_entries
        counts.tool_calls
    where
      bounded :
          (l : Limiter)
          → IsWithin l
          → l.limits ≡ limits
          → l.events ≡ length es + 0
          → l.turn_bytes ≡ total (λ e. size_or_zero (frame e limits.max_event_bytes)) es + 0
          → l.metadata_entries ≡ total (λ e. metadata_of e.response) es + 0
          → l.tool_calls ≡ total calls_of es + 0
          → (length es ≤ limits.max_events)
            × (total (λ e. size_or_zero (frame e limits.max_event_bytes)) es
                ≤ limits.max_turn_bytes)
            × (total (λ e. metadata_of e.response) es ≤ limits.max_metadata_entries)
            × (total calls_of es ≤ limits.max_tool_calls)
            × (length l.candidates ≤ limits.max_candidates)
            × (length l.parts ≤ limits.max_parts)
      bounded l w k a b c d =
          let p = ap (λ (k : StreamLimits ℕ). k.max_events) k in
          let q = ap (λ (k : StreamLimits ℕ). k.max_turn_bytes) k in
          let r = ap (λ (k : StreamLimits ℕ). k.max_metadata_entries) k in
          let s = ap (λ (k : StreamLimits ℕ). k.max_tool_calls) k in
          let t = ap (λ (k : StreamLimits ℕ). k.max_candidates) k in
          let u = ap (λ (k : StreamLimits ℕ). k.max_parts) k in
          (
            omega (arith, w.events, a, p),
            omega (arith, w.turn_bytes, b, q),
            omega (arith, w.metadata_entries, c, r),
            omega (arith, w.tool_calls, d, s),
            omega (arith, w.candidates, t),
            omega (arith, w.parts, u),
          )
