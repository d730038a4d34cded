-- ===== src/Models/Reducer/Ordered.antt =====
-- The response of a finished stream in core/models/reducer.go: its candidates and their contents in the
-- order of their indexes.
use serpe.Base.{
  ℕ, suc, ◌≡◌, refl, inl, inr, sym, ◌∙◌, arith, Option-cases, all_entries-lookup, ◌≤◌, subst, true,
  none, some, List, [], ◌∷◌, ◌++◌, Assoc, lookup, all_entries, pair_eq, Bytes, bytes_eq, nat_eq,
}
use serpe.Models.Content.{Content, Test, validate, clone}
use serpe.Models.Event.{Event}
use serpe.Models.Reducer.{
  Part, CandidateParts, Candidate, Response, PartKey, Reducer, ok, new_reducer,
}
use serpe.Models.Reducer.Finish.{sorted_keys, contents_of, candidates_of, is_part_ended}
use serpe.Models.Reducer.Payload.{payload, payload-clone}
use serpe.Models.Reducer.History.{opening, written}
use serpe.Models.Reducer.Written.{reduce-written}
use serpe.Models.Reducer.Apply.{reduce, result}
use serpe.Models.Reducer.Keys.{IsIncreasingFrom, sorted_keys-IsIncreasingFrom}
use serpe.Models.Reducer.Tidy.{IsTidyMap, reduce-IsTidy, new_reducer-IsTidy}

-- A block of the response: the copy of a valid block that the events of one part have made.
pub record IsMade (is_object has_scheme : Test) (es : List Event) (key : PartKey)
    (content : Content) : Type 0 where
  pub original : Content
  pub opened_with : Content
  pub copied : content ≡ clone original
  pub valid : validate is_object has_scheme original ≡ none
  pub opened : opening key es ≡ some opened_with
  pub same_kind : content.kind ≡ opened_with.kind
  pub bytes : payload content ≡ payload opened_with ++ written key es

module _ (is_object has_scheme : Test) (es : List Event) where
  -- The blocks of candidate `i`, made by parts with growing indexes from `low` on.
  abbrev pub AreMade : ℕ → ℕ → List Content → Type 0
  AreMade i low [] = Unit
  AreMade i low (c ∷ cs) =
      (j : ℕ) × (low ≤ j) × IsMade is_object has_scheme es (i, j) c × AreMade i (suc j) cs

  -- Candidates with growing indexes from `low` on.
  abbrev pub AreOrdered : ℕ → List Candidate → Type 0
  AreOrdered low [] = Unit
  AreOrdered low (c ∷ cs) =
      (low ≤ c.index) × AreMade c.index 0 c.contents × AreOrdered (suc c.index) cs

  AreMade-weaken :
      (i low high : ℕ) (cs : List Content) → low ≤ high → AreMade i high cs → AreMade i low cs
  AreMade-weaken i low high [] le h = tt
  AreMade-weaken i low high (c ∷ cs) le (j, above, made, rest) = (j, omega arith, made, rest)

  AreOrdered-weaken :
      (low high : ℕ) (cs : List Candidate) → low ≤ high → AreOrdered high cs → AreOrdered low cs
  AreOrdered-weaken low high [] le h = tt
  AreOrdered-weaken low high (c ∷ cs) le (above, made, rest) = (omega arith, made, rest)

  module _ (provider : Bytes) (r : Reducer)
      (reduced : reduce is_object has_scheme es (new_reducer provider) ≡ ok r)
      (all_ended : all_entries is_part_ended r.parts ≡ true) where
    part-IsMade :
        (key : PartKey) (p : Part)
        → lookup key r.parts ≡ some p
        → IsMade is_object has_scheme es key (clone p.content)
    part-IsMade key p found =
        let done = all_entries-lookup is_part_ended r.parts {k = key} {v = p} all_ended found in
        let (c, opened, kind, bytes, valid) =
          reduce-written is_object has_scheme provider es r key p reduced found done in
        let (same, same_kind) = payload-clone p.content in
        record {
          original = p.content;
          opened_with = c;
          copied = refl;
          valid = valid;
          opened = opened;
          same_kind = same_kind ∙ kind;
          bytes = same ∙ bytes;
        }

    contents_of-AreMade :
        (i low : ℕ) (js : List ℕ)
        → IsIncreasingFrom low js
        → AreMade i low (contents_of i js r.parts)
    unfolding contents_of
    contents_of-AreMade i low [] h = tt
    contents_of-AreMade i low (j ∷ js) h = elim (Option-cases (lookup (i, j) r.parts)) [
      | inl missing ↦
          rw (missing, AreMade)
            (AreMade-weaken i low (suc j) (contents_of i js r.parts) (omega (arith, h.0))
              (contents_of-AreMade i (suc j) js h.1))
      | inr (p, found) ↦
          rw (found, AreMade)
            (j, h.0, part-IsMade (i, j) p found, contents_of-AreMade i (suc j) js h.1)
    ]

    candidates_of-AreOrdered :
        (m : Assoc ℕ CandidateParts) (low : ℕ) (is : List ℕ)
        → IsTidyMap m
        → IsIncreasingFrom low is
        → AreOrdered low (candidates_of is m r.parts)
    unfolding candidates_of
    candidates_of-AreOrdered m low [] t h = tt
    candidates_of-AreOrdered m low (i ∷ is) t h = elim (Option-cases (lookup i m)) [
      | inl missing ↦
          rw (missing, AreOrdered)
            (AreOrdered-weaken low (suc i) (candidates_of is m r.parts) (omega (arith, h.0))
              (candidates_of-AreOrdered m (suc i) is t h.1))
      | inr (c, found) ↦
          rw (found, AreOrdered)
            (
              h.0,
              contents_of-AreMade i 0 (sorted_keys c.parts)
                  (sorted_keys-IsIncreasingFrom c.parts (t.1 i c found)),
              candidates_of-AreOrdered m (suc i) is t h.1,
            )
    ]

-- The candidates of a finished response stand in the order of their indexes, and so do the blocks of
-- each; every block is a copy of a valid one, and carries the bytes of the block that opened its part,
-- followed by the bytes of all deltas of the part.
pub result-AreOrdered :
    (is_object has_scheme : Test) (provider : Bytes) (es : List Event) (r : Reducer)
    (response : Response)
    → reduce is_object has_scheme es (new_reducer provider) ≡ ok r
    → result r ≡ some response
    → AreOrdered is_object has_scheme es 0 response.candidates
unfolding result new_reducer
result-AreOrdered is_object has_scheme provider es r response h finished =
    let ended : r.ended ≡ true = ground arith in
    let tidy =
      reduce-IsTidy is_object has_scheme es (new_reducer provider) r (new_reducer-IsTidy provider)
        h in
    let collected = tidy.collected ended in
    let same : r.response ≡ response = ground arith in
    subst (λ (response : Response). AreOrdered is_object has_scheme es 0 response.candidates) same
      (subst (AreOrdered is_object has_scheme es 0) (sym collected) (
        candidates_of-AreOrdered is_object has_scheme es provider r h (tidy.all_ended ended)
          r.candidates 0 (sorted_keys r.candidates) (tidy.unique, tidy.unique_parts)
          (sorted_keys-IsIncreasingFrom r.candidates tidy.unique)))
