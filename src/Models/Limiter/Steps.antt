-- ===== src/Models/Limiter/Steps.antt =====
-- What one accepted event changes in the limiter of core/models/stream_limits.go.
use serpe.Base.{
  bind_inv, ℕ, suc, ◌+◌, ◌≤◌, ◌<◌, ◌≡◌, refl, sym, subst, inl, inr, true, ◌&&◌, Option, none, some,
  [], ltb, leb, if◌then◌else◌, Assoc, pair_eq, nat_eq, arith, Bool-cases, Option-cases,
}
use serpe.Models.Content.{Test}
use serpe.Models.Event.{Event, validate_event_shape, is_start}
use serpe.Models.Limiter.{
  ok, Limiter, metadata_of, add_finishes, is_tool_call, check_start, note_start, accept_structure,
  measure_event_frame, validate_indexes, accept,
}
use serpe.Models.Limiter.Starts.{IsWithin, start_no_finishes, note_start-IsWithin}

-- What one event adds to the counts.
pub record Counted (size : ℕ) (e : Event) (l m : Limiter) : Type 0 where
  pub limits : m.limits ≡ l.limits
  pub events : m.events ≡ suc l.events
  pub turn_bytes : m.turn_bytes ≡ size + l.turn_bytes
  pub metadata_entries : m.metadata_entries ≡ metadata_of e.response + l.metadata_entries
  pub tool_calls : m.tool_calls ≡ (if is_tool_call e then suc l.tool_calls else l.tool_calls)

accept_structure-IsWithin :
    (e : Event) (l m : Limiter)
    → IsWithin l
    → (is_start e.kind ≡ true → e.finishes ≡ [])
    → accept_structure e l ≡ ok m
    → (candidates : Assoc ℕ (Unit {0})) × (m ≡ note_start e candidates l) × IsWithin m
unfolding accept_structure
accept_structure-IsWithin e l m within no_finishes h =
    elim (Bool-cases
      (ltb l.limits.max_metadata_entries (metadata_of e.response + l.metadata_entries))) [
        | inl over ↦ absurd (cc (rw over at h))
        | inr fits ↦ elim (Option-cases (check_start e l)) [
          | inr (error, refused) ↦ absurd (cc (rw (fits, refused) at h))
          | inl checked ↦
              let (candidates, added, rest) =
                bind_inv (add_finishes l.limits.max_candidates e.finishes l.candidates) _
                  (rw (fits, checked) at h) in
              elim (Bool-cases (is_tool_call e && leb l.limits.max_tool_calls l.tool_calls)) [
                | inl full ↦ absurd (cc (rw full at rest))
                | inr room ↦
                    let made : ok (note_start e candidates l) ≡ ok m = rw room at rest in
                    let done : note_start e candidates l ≡ m = cc (made) in
                    (
                      candidates,
                      sym done,
                      subst IsWithin done (
                          note_start-IsWithin e l within checked candidates (ground arith) added
                            no_finishes room),
                    )
              ]
        ]
      ]

-- The counts that `accept` writes at its end.
abbrev count_event : ℕ → Limiter → Limiter
count_event size n = record n { events = suc n.events; turn_bytes = n.turn_bytes + size }

count_event-Counted :
    (size : ℕ) (e : Event) (l n : Limiter) (candidates : Assoc ℕ (Unit {0}))
    → l.events < l.limits.max_events
    → size + l.turn_bytes ≤ l.limits.max_turn_bytes
    → n ≡ note_start e candidates l
    → IsWithin n
    → IsWithin (count_event size n) × Counted size e l (count_event size n)
unfolding note_start
count_event-Counted size e l n candidates more room noted within = (
  record {
    events =
        subst (λ (n : Limiter). suc n.events ≤ n.limits.max_events) (sym noted)
          (omega (arith, more));
    turn_bytes =
        subst (λ (n : Limiter). n.turn_bytes + size ≤ n.limits.max_turn_bytes) (sym noted)
          (omega (arith, room));
    metadata_entries = within.metadata_entries;
    tool_calls = within.tool_calls;
    candidates = within.candidates;
    parts = within.parts;
  },
  subst (λ (n : Limiter). Counted size e l (count_event size n)) (sym noted)
      (record {
        limits = refl;
        events = refl;
        turn_bytes = omega arith;
        metadata_entries = omega arith;
        tool_calls = refl;
      }),
)

abbrev pub size_or_zero : Option ℕ → ℕ
size_or_zero none = 0
size_or_zero (some n) = n

module _ (is_object has_scheme : Test) (frame : Event → ℕ → Option ℕ) where
  measure_event_frame-some :
      (e : Event) (max size : ℕ)
      → measure_event_frame is_object has_scheme frame e max ≡ ok size
      → (validate_event_shape is_object has_scheme e ≡ none) × (frame e max ≡ some size)
  unfolding measure_event_frame
  measure_event_frame-some e max size h = ground arith

  -- What has been tested of an event that is accepted.
  accept_inv :
      (e : Event) (l m : Limiter)
      → accept is_object has_scheme frame e l ≡ ok m
      → (size : ℕ) × (n : Limiter) × (l.events < l.limits.max_events)
        × (frame e l.limits.max_event_bytes ≡ some size)
        × (size + l.turn_bytes ≤ l.limits.max_turn_bytes)
        × (validate_event_shape is_object has_scheme e ≡ none)
        × (accept_structure e l ≡ ok n)
        × (count_event size n ≡ m)
  unfolding accept
  accept_inv e l m h = elim (Bool-cases (leb l.limits.max_events l.events)) [
    | inl full ↦ absurd (cc (rw full at h))
    | inr more ↦ elim (Option-cases (validate_indexes e l)) [
      | inr (error, refused) ↦ absurd (cc (rw (more, refused) at h))
      | inl valid ↦
          let (size, measured, rest) =
            bind_inv (measure_event_frame is_object has_scheme frame e l.limits.max_event_bytes) _
              (rw (more, valid) at h) in
          let (shaped, framed) =
            measure_event_frame-some e l.limits.max_event_bytes size measured in
          elim (Bool-cases (ltb l.limits.max_event_bytes size)) [
            | inl over ↦ absurd (cc (rw over at rest))
            | inr fits ↦ elim (Bool-cases (ltb l.limits.max_turn_bytes (size + l.turn_bytes))) [
              | inl over ↦ absurd (cc (rw (fits, over) at rest))
              | inr room ↦
                  let (n, structured, made) =
                    bind_inv (accept_structure e l) _ (rw (fits, room) at rest) in
                  (size, n, ground arith, framed, ground arith, shaped, structured, cc (made))
            ]
          ]
    ]
  ]

  pub accept-Counted :
      (e : Event) (l m : Limiter)
      → IsWithin l
      → accept is_object has_scheme frame e l ≡ ok m
      → IsWithin m × Counted (size_or_zero (frame e l.limits.max_event_bytes)) e l m
  unfolding note_start
  accept-Counted e l m within h =
      let (size, n, more, framed, room, shaped, structured, made) = accept_inv e l m h in
      let no_finishes : is_start e.kind ≡ true → e.finishes ≡ [] =
        λ s. start_no_finishes is_object has_scheme e s shaped in
      let (candidates, noted, inside) =
        accept_structure-IsWithin e l n within no_finishes structured in
      rw framed (
        subst (λ (m : Limiter). IsWithin m × Counted size e l m) made
          (count_event-Counted size e l n candidates more room noted inside))
