-- ===== src/Models/Reducer/Tidy.antt =====
-- What core/models/reducer.go keeps of its candidates.
use serpe.Base.{
  ℕ, ◌≡◌, refl, inl, inr, arith, Bool-cases, Option-cases, lookup-put, IsUnique, IsUnique-put,
  subst, true, false, some, List, [], ◌∷◌, ◌==◌, Assoc, lookup, put, all_entries, pair_eq, Bytes,
  bytes_eq, nat_eq,
}
use serpe.Models.Content.{Test}
use serpe.Models.Event.{
  Event, EventKind, response_start, part_start, part_delta, part_end, response_end, other_event,
  ResponseInfo, CandidateFinish,
}
use serpe.Models.Reducer.{
  CandidateParts, Response, Reducer, ok, new_reducer, index, finish_unknown, no_candidate,
  candidate_or,
}
use serpe.Models.Reducer.Parts.{start, start_part, delta_part, end_part}
use serpe.Models.Reducer.Finish.{
  end, finish_response, merge_info, set_finish, set_finishes, sorted_keys, candidates_of,
  is_part_ended,
}
use serpe.Models.Reducer.Apply.{apply, apply_kind, reduce, reduce_inv}

pub record IsTidy (r : Reducer) : Type 0 where
  pub unique : IsUnique r.candidates
  pub unique_parts :
      (i : ℕ) (c : CandidateParts) → lookup i r.candidates ≡ some c → IsUnique c.parts
  pub all_ended : r.ended ≡ true → all_entries is_part_ended r.parts ≡ true
  pub collected :
      r.ended ≡ true
      → r.response.candidates ≡ candidates_of (sorted_keys r.candidates) r.candidates r.parts

-- What a map of candidates keeps.
abbrev pub IsTidyMap : Assoc ℕ CandidateParts → Type 0
IsTidyMap m = IsUnique m × ((i : ℕ) (c : CandidateParts) → lookup i m ≡ some c → IsUnique c.parts)

put-IsTidyMap :
    (i : ℕ) (c : CandidateParts) (m : Assoc ℕ CandidateParts)
    → IsUnique c.parts
    → IsTidyMap m
    → IsTidyMap (put i c m)
put-IsTidyMap i c m u (unique, parts) = (
  IsUnique-put i c m unique,
  λ k d h. elim (Bool-cases (i == k)) [
    | inl here ↦
        let made : c ≡ d = ground (arith, lookup-put i k c m) in
        subst (λ (d : CandidateParts). IsUnique d.parts) made u
    | inr there ↦ parts k d (ground (arith, lookup-put i k c m))
  ],
)

set_finish-IsTidyMap :
    (f : CandidateFinish) (m : Assoc ℕ CandidateParts) → IsTidyMap m → IsTidyMap (set_finish f m)
unfolding set_finish
set_finish-IsTidyMap f m t = put-IsTidyMap (index f.candidate_index) _ m known t
  where
    known : IsUnique (candidate_or (no_candidate []) (lookup (index f.candidate_index) m)).parts
    known = elim (Option-cases (lookup (index f.candidate_index) m)) [
      | inl new ↦ rw new tt
      | inr (c, old) ↦ rw old (t.1 (index f.candidate_index) c old)
    ]

set_finishes-IsTidyMap :
    (fs : List CandidateFinish) (m : Assoc ℕ CandidateParts)
    → IsTidyMap m
    → IsTidyMap (set_finishes fs m)
unfolding set_finishes
set_finishes-IsTidyMap [] m t = t
set_finishes-IsTidyMap (f ∷ fs) m t =
    set_finishes-IsTidyMap fs (set_finish f m) (set_finish-IsTidyMap f m t)

-- A reducer that is not finished is tidy when its candidates are.
still_open : (r : Reducer) → r.ended ≡ false → IsTidyMap r.candidates → IsTidy r
still_open r open_ t = record {
  unique = t.0;
  unique_parts = t.1;
  all_ended = λ h. absurd (cc (open_, h));
  collected = λ h. absurd (cc (open_, h));
}

tidy_map : (r : Reducer) → IsTidy r → IsTidyMap r.candidates
tidy_map r t = (t.unique, t.unique_parts)

start_part-IsTidy :
    (e : Event) (r s : Reducer) → IsTidy r → r.ended ≡ false → start_part e r ≡ ok s → IsTidy s
unfolding start_part
start_part-IsTidy e r s t open_ h =
    still_open s (ground arith)
      (subst IsTidyMap added (put-IsTidyMap i with_part r.candidates known (tidy_map r t)))
  where
    i : ℕ
    i = index e.candidate_index

    candidate : CandidateParts
    candidate = candidate_or (no_candidate finish_unknown) (lookup i r.candidates)

    with_part : CandidateParts
    with_part = record candidate { parts = put (index e.part_index) tt candidate.parts }

    was : IsUnique candidate.parts
    was = elim (Option-cases (lookup i r.candidates)) [
      | inl new ↦ rw new tt
      | inr (c, old) ↦ rw old (t.unique_parts i c old)
    ]

    known : IsUnique with_part.parts
    known = IsUnique-put (index e.part_index) tt candidate.parts was

    added : put i with_part r.candidates ≡ s.candidates
    added = ground arith

delta_part-IsTidy :
    (e : Event) (r s : Reducer) → IsTidy r → r.ended ≡ false → delta_part e r ≡ ok s → IsTidy s
unfolding delta_part
delta_part-IsTidy e r s t open_ h =
    still_open s (ground arith) (subst IsTidyMap (ground arith) (tidy_map r t))

start-IsTidy :
    (info : ResponseInfo) (r s : Reducer)
    → IsTidy r
    → r.ended ≡ false
    → start info r ≡ ok s
    → IsTidy s
unfolding start
start-IsTidy info r s t open_ h =
    still_open s (ground arith) (subst IsTidyMap (ground arith) (tidy_map r t))

finish_response-IsTidy :
    (e : Event) (m : Response) (r : Reducer)
    → IsTidy r
    → all_entries is_part_ended r.parts ≡ true
    → IsTidy (finish_response e m r)
unfolding finish_response
finish_response-IsTidy e m r t h =
    let (u, parts) = set_finishes-IsTidyMap e.finishes r.candidates (tidy_map r t) in
    record { unique = u; unique_parts = parts; all_ended = λ _. h; collected = λ _. refl }

end-IsTidy : (e : Event) (r s : Reducer) → IsTidy r → end e r ≡ ok s → IsTidy s
unfolding end
end-IsTidy e r s t h = elim (Option-cases e.response) [
  | inl missing ↦
      subst IsTidy (ground arith) (finish_response-IsTidy e r.response r t (ground arith))
  | inr (info, given) ↦
      subst IsTidy (ground arith)
        (finish_response-IsTidy e (merge_info info r.response) r t (ground arith))
]

module _ (is_object has_scheme : Test) where
  end_part-IsTidy :
      (e : Event) (r s : Reducer)
      → IsTidy r
      → r.ended ≡ false
      → end_part is_object has_scheme e r ≡ ok s
      → IsTidy s
  unfolding end_part
  end_part-IsTidy e r s t open_ h =
      still_open s (ground arith) (subst IsTidyMap (ground arith) (tidy_map r t))

  apply_kind-IsTidy :
      (k : EventKind) (e : Event) (r s : Reducer)
      → IsTidy r
      → r.ended ≡ false
      → apply_kind is_object has_scheme k e r ≡ ok s
      → IsTidy s
  unfolding apply_kind
  apply_kind-IsTidy response_start e r s t open_ h = elim (Option-cases e.response) [
    | inl missing ↦ absurd (ground arith)
    | inr (info, given) ↦ start-IsTidy info r s t open_ (ground (arith, given))
  ]
  apply_kind-IsTidy part_start e r s t open_ h = start_part-IsTidy e r s t open_ h
  apply_kind-IsTidy part_delta e r s t open_ h = delta_part-IsTidy e r s t open_ h
  apply_kind-IsTidy part_end e r s t open_ h = end_part-IsTidy e r s t open_ h
  apply_kind-IsTidy response_end e r s t open_ h = end-IsTidy e r s t h
  apply_kind-IsTidy (other_event name) e r s t open_ h = absurd (ground arith)

  apply-IsTidy :
      (e : Event) (r s : Reducer) → IsTidy r → apply is_object has_scheme e r ≡ ok s → IsTidy s
  unfolding apply
  apply-IsTidy e r s t h = apply_kind-IsTidy e.kind e r s t (ground arith) (ground arith)

  pub reduce-IsTidy :
      (es : List Event) (r s : Reducer)
      → IsTidy r
      → reduce is_object has_scheme es r ≡ ok s
      → IsTidy s
  unfolding reduce
  reduce-IsTidy [] r s t h = subst IsTidy (ground arith) t
  reduce-IsTidy (e ∷ es) r s t h =
      let (u, one, rest) = reduce_inv is_object has_scheme e es r s h in
      reduce-IsTidy es u s (apply-IsTidy e r u t one) rest

pub new_reducer-IsTidy : (provider : Bytes) → IsTidy (new_reducer provider)
unfolding new_reducer lookup
new_reducer-IsTidy provider =
    still_open (new_reducer provider) refl (tt, λ i c h. absurd (ground arith))
