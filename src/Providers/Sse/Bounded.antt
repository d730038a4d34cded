-- ===== src/Providers/Sse/Bounded.antt =====
-- The events that core/providers/internal/transport/sse/reader.go gives.
use serpe.Base.{
  length-take_whole, ℕ, zero, suc, ◌+◌, ◌-◌, ◌≡◌, ◌≤◌, ◌<◌, refl, ◌∙◌, Bool, true, false, ◌&&◌,
  ◌||◌, [], ◌==◌, nat_eq, ltb, if◌then◌else◌, Bytes, bytes_eq, length, valid_string, arith,
  Bool-cases, inl, inr,
}
use serpe.Providers.Sse.{
  Reading, Outcome, dispatched, at_end, failed, exhausted, take_line, trim_suffix, read_field,
  dispatch, new_reading, at_empty, at_field, read_line, next_event, next,
}
use serpe.Providers.Sse.Fields.{length-take_line, length-trim_suffix, read_field-Grows}

abbrev pub IsBounded : ℕ → ℕ → Outcome → Type 0
IsBounded max_size bytes (dispatched e last_id rest) =
    (length e.payload ≤ max_size) × (length e.payload + length rest ≤ bytes)
IsBounded max_size bytes (at_end last_id) = Unit
IsBounded max_size bytes (failed e) = Unit
IsBounded max_size bytes exhausted = false ≡ true

module _ (max_size bytes : ℕ) where
  -- The data of a reading fit what has been read for it, and this the text; without a field there are
  -- none.
  abbrev IsWithin : Reading → ℕ → Type 0
  IsWithin r left =
      (length r.event.payload ≤ r.size)
      × (r.size + left ≤ bytes)
      × (r.has_field ≡ false → length r.event.payload ≡ 0)

  module _ (eof : Bool) (rest : Bytes) (go : Bytes → Reading → Outcome)
      (goes_on : (last : Bytes) (r : Reading)
        → eof ≡ false
        → IsWithin r (length rest)
        → IsBounded max_size bytes (go last r)) where
    dispatch-IsBounded :
        (last : Bytes) (r : Reading)
        → IsWithin r (length rest)
        → r.size ≤ max_size
        → IsBounded max_size bytes (dispatched (dispatch r.event) last rest)
    dispatch-IsBounded last r (within, fits, unmarked) most =
        let short = length-take_whole (length r.event.payload - 1) r.event.payload in
        (omega (arith, short, within, most), omega (arith, short, within, fits))

    at_field-IsBounded :
        (last : Bytes) (r : Reading)
        → IsWithin r (length rest)
        → r.size ≤ max_size
        → IsBounded max_size bytes (at_field last eof rest r go)
    unfolding at_field
    at_field-IsBounded last r within most = elim (Bool-cases eof) [
      | inr more ↦ rw more (goes_on last r more within)
      | inl ends ↦ elim (Bool-cases (r.has_field && r.has_data)) [
        | inl event ↦ rw (ends, event) (dispatch-IsBounded r.event.id r within most)
        | inr none_yet ↦ rw (ends, none_yet) tt
      ]
    ]

    at_empty-IsBounded :
        (last : Bytes) (r : Reading)
        → IsWithin r (length rest)
        → r.size ≤ max_size
        → IsBounded max_size bytes (at_empty last eof rest r go)
    unfolding at_empty
    at_empty-IsBounded last r (within, fits, unmarked) most = elim (Bool-cases r.has_field) [
      | inr unset ↦ elim (Bool-cases eof) [
        | inl ends ↦ rw (unset, ends) tt
        | inr more ↦
            let empty = unmarked unset in
            rw (unset, more)
              (goes_on last (record r { size = 0; has_field = false }) more
                (omega (arith, empty), omega (arith, fits), λ h. empty))
      ]
      | inl marked ↦ elim (Bool-cases r.has_data) [
        | inl event ↦
            rw (marked, event) (dispatch-IsBounded r.event.id r (within, fits, unmarked) most)
        | inr no_data ↦ elim (Bool-cases eof) [
          | inl ends ↦ rw (marked, no_data, ends) tt
          | inr more ↦
              rw (marked, no_data, more)
                (goes_on r.event.id (new_reading r.event.id) more
                  (omega arith, omega (arith, fits), λ h. refl))
        ]
      ]
    ]

    read_line-IsBounded :
        (last raw : Bytes) (r : Reading)
        → IsWithin r (length raw + (if eof then 0 else 1) + length rest)
        → IsBounded max_size bytes (read_line max_size last (raw, eof, rest) r go)
    unfolding read_line
    read_line-IsBounded last raw r (within, fits, unmarked) =
        let size : ℕ = r.size + length raw + (if eof then 0 else 1) in
        let line : Bytes = trim_suffix raw in
        let read : Reading = record r { size = size } in
        let shorter = length-trim_suffix raw in
        elim (Bool-cases (max_size == 0 || ltb max_size size)) [
          | inl large ↦ rw large tt
          | inr small ↦
              let most : size ≤ max_size = ground (arith, small) in
              elim (Bool-cases (line == [])) [
                | inl empty ↦
                    rw (small, empty)
                      (at_empty-IsBounded last read
                        (omega (arith, within), omega (arith, fits), unmarked) most)
                | inr text ↦ elim (Bool-cases (valid_string line)) [
                  | inr broken ↦ rw (small, text, broken) tt
                  | inl valid ↦
                      let (grown, same, marked) = read_field-Grows line read in
                      rw (small, text, valid)
                        (at_field-IsBounded last (read_field line read)
                          (
                            omega (arith, grown, same, within, shorter),
                            omega (arith, same, fits),
                            λ h. (marked h).0 ∙ unmarked (marked h).1,
                          )
                          (omega (arith, same, most)))
                ]
              ]
        ]

  next_event-IsBounded :
      (fuel : ℕ) (last : Bytes) (r : Reading) (text : Bytes)
      → length text < fuel
      → IsWithin r (length text)
      → IsBounded max_size bytes (next_event fuel max_size last r text)
  unfolding next_event
  next_event-IsBounded zero last r text few within = absurd (omega (arith, few))
  next_event-IsBounded (suc fuel) last r text few (within, fits, unmarked) =
      let line = take_line text in
      let total = length-take_line text in
      read_line-IsBounded line.1 line.2 (λ last' r'. next_event fuel max_size last' r' line.2)
        (λ last' r' more inner.
          next_event-IsBounded fuel last' r' line.2
            (left line.1 (length line.0) (length line.2) (length text) fuel more total few) inner)
        last line.0 r (within, omega (arith, total, fits), unmarked)
    where
      left :
          (eof : Bool) (line rest text fuel : ℕ)
          → eof ≡ false
          → line + (if eof then 0 else 1) + rest ≡ text
          → text < suc fuel
          → rest < fuel
      left true line rest text fuel more total few = absurd (cc (more))
      left false line rest text fuel more total few = omega (arith, total, few)

-- The reader ends on every text, with an event, at the end or with an error: the number of lines that
-- the model allows is never used up. The data of an event are within the limit of its size, and together
-- with what is left of the text no longer than the text.
pub next-IsBounded :
    (max_size : ℕ) (last_id text : Bytes)
    → IsBounded max_size (length text) (next max_size last_id text)
unfolding next
next-IsBounded max_size last_id text =
    next_event-IsBounded max_size (length text) (suc (length text)) last_id (new_reading last_id)
      text (omega arith) (omega arith, omega arith, λ h. refl)
