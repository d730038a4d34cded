-- ===== src/Models/Reducer/Written.antt =====
-- What core/models/reducer.go has to have made of each part: the block that opened it, and the bytes
-- of its deltas in order.
use serpe.Base.{
  ◌≡◌, refl, inl, inr, sym, ap, subst, ◌∙◌, arith, Bool-cases, ==_iff, lookup-put, true, false,
  ◌&&◌, none, some, List, [], ◌∷◌, ◌++◌, ◌==◌, lookup, put, pair_eq, Bytes, bytes_eq, nat_eq,
}
use serpe.Models.Content.{
  Content, ContentKind, text_kind, image_kind, tool_call_kind, tool_result_kind, reasoning_kind,
  refusal_kind, other_kind, Test, validate, clone,
}
use serpe.Models.Event.{is_start, Event, part_start, part_delta, part_end}
use serpe.Models.Reducer.{Part, PartKey, Reducer, ok, new_reducer, part_key}
use mathlib.Core.List.{append-nil, append_assoc}
use serpe.Models.Reducer.Parts.{close_part, new_part, accepts_delta, write_delta}
use serpe.Models.Reducer.Payload.{
  payload, pending_of, delta_bytes, write_delta-pending, close_part_lem, payload-clone,
}
use serpe.Models.Reducer.Change.{Change, same, opened, filled, closed, apply-Change}
use serpe.Models.Reducer.Apply.{reduce, reduce_inv}
use serpe.Models.Reducer.History.{
  is_delta, opening, written, after, opening-after, written-after, quiet,
}

module _ (is_object has_scheme : Test) where
  -- A part is what the events `past` say.
  pub record Tells (past : List Event) (key : PartKey) (p : Part) : Type 0 where
    pub content : Content
    pub opened_by : opening key past ≡ some content
    pub same_kind : p.content.kind ≡ content.kind
    pub open_payload : p.ended ≡ false → payload p.content ≡ payload content
    pub open_pending : p.ended ≡ false → pending_of p.content.kind p ≡ written key past
    pub ended_payload : p.ended ≡ true → payload p.content ≡ payload content ++ written key past
    pub ended_valid : p.ended ≡ true → validate is_object has_scheme p.content ≡ none

  -- Every part is what the past says, and where there is none the past says nothing.
  pub record Consistent (past : List Event) (r : Reducer) : Type 0 where
    pub told : (key : PartKey) (p : Part) → lookup key r.parts ≡ some p → Tells past key p
    pub silent :
        (key : PartKey)
        → lookup key r.parts ≡ none
        → (opening key past ≡ none) × (written key past ≡ [])

  Tells-quiet :
      (past now : List Event) (key : PartKey) (p : Part)
      → (opening key now ≡ opening key past) × (written key now ≡ written key past)
      → Tells past key p
      → Tells now key p
  Tells-quiet past now key p (o, w) t = record {
    content = t.content;
    opened_by = o ∙ t.opened_by;
    same_kind = t.same_kind;
    open_payload = t.open_payload;
    open_pending = λ h. t.open_pending h ∙ sym w;
    ended_payload = λ h. t.ended_payload h ∙ ap (λ (x : Bytes). payload t.content ++ x) (sym w);
    ended_valid = t.ended_valid;
  }

  -- One part changes, and the event is about it alone.
  at_part :
      (past : List Event) (e : Event) (r s : Reducer) (q : Part)
      → Consistent past r
      → s.parts ≡ put (part_key e) q r.parts
      → Tells (after past e) (part_key e) q
      → Consistent (after past e) s
  at_part past e r s q c changed t = record {
    told = λ key p found. elim (Bool-cases (part_key e == key)) [
      | inl here ↦ at key p here found
      | inr there ↦
          Tells-quiet past (after past e) key p (elsewhere key there)
            (c.told key p (ground (arith, changed, lookup-put (part_key e) key q r.parts)))
    ];
    silent = λ key absent. elim (Bool-cases (part_key e == key)) [
      | inl here ↦ absurd (ground (arith, changed, lookup-put (part_key e) key q r.parts))
      | inr there ↦
          let (o, w) = elsewhere key there in
          let (a, b) =
            c.silent key (ground (arith, changed, lookup-put (part_key e) key q r.parts)) in
          (o ∙ a, w ∙ b)
    ];
  }
    where
      elsewhere :
          (key : PartKey)
          → (part_key e == key) ≡ false
          → (opening key (after past e) ≡ opening key past)
            × (written key (after past e) ≡ written key past)
      elsewhere key there = quiet key past e (ground (arith, there)) (ground (arith, there))

      at :
          (key : PartKey) (p : Part)
          → (part_key e == key) ≡ true
          → lookup key s.parts ≡ some p
          → Tells (after past e) key p
      at key p here found =
          let same_key : part_key e ≡ key = (==_iff (part_key e) key).0 here in
          let same_part : q ≡ p = ground (arith, changed, lookup-put (part_key e) key q r.parts) in
          subst (λ key. Tells (after past e) key p) same_key
            (subst (λ p. Tells (after past e) (part_key e) p) same_part t)

  self_key : (e : Event) → (part_key e == part_key e) ≡ true
  self_key e = (==_iff (part_key e) (part_key e)).1 refl

  opened-Tells :
      (past : List Event) (e : Event) (r : Reducer)
      → Consistent past r
      → e.kind ≡ part_start
      → lookup (part_key e) r.parts ≡ none
      → Tells (after past e) (part_key e) (new_part (clone e.part))
  unfolding pending_of
  opened-Tells past e r c k new =
      let (none_before, nothing) = c.silent (part_key e) new in
      let (bytes, kind) = payload-clone e.part in
      let starts : (is_start e.kind && part_key e == part_key e) ≡ true =
        ground (arith, self_key e) in
      let brings_none : (is_delta e.kind && part_key e == part_key e) ≡ false = ground arith in
      let w : written (part_key e) (after past e) ≡ [] =
        written-after (part_key e) past e ∙ rw (nothing, brings_none) in
      record {
        content = e.part;
        opened_by = opening-after (part_key e) past e ∙ rw (none_before, starts);
        same_kind = kind;
        open_payload = λ _. bytes;
        open_pending = λ _. nothing_pending (clone e.part).kind ∙ sym w;
        ended_payload = λ h. absurd (cc);
        ended_valid = λ h. absurd (cc);
      }
    where
      nothing_pending : (k : ContentKind) → pending_of k (new_part (clone e.part)) ≡ []
      nothing_pending text_kind = refl
      nothing_pending image_kind = refl
      nothing_pending tool_call_kind = refl
      nothing_pending tool_result_kind = refl
      nothing_pending reasoning_kind = refl
      nothing_pending refusal_kind = refl
      nothing_pending (other_kind name) = refl

  filled-Tells :
      (past : List Event) (e : Event) (p : Part)
      → Tells past (part_key e) p
      → e.kind ≡ part_delta
      → p.ended ≡ false
      → accepts_delta e.delta.kind p.content ≡ true
      → Tells (after past e) (part_key e) (write_delta e.delta.kind e.delta p)
  filled-Tells past e p t k open_ accepted =
      let q = write_delta e.delta.kind e.delta p in
      let (grown, same_content, same_ended) =
        write_delta-pending e.delta.kind e.delta p refl accepted in
      let brings : (is_delta e.kind && part_key e == part_key e) ≡ true =
        ground (arith, self_key e) in
      let w : written (part_key e) (after past e)
          ≡ written (part_key e) past ++ delta_bytes e.delta =
        written-after (part_key e) past e ∙ rw brings in
      let o : opening (part_key e) (after past e) ≡ some t.content =
        opening-after (part_key e) past e ∙ rw t.opened_by in
      record {
        content = t.content;
        opened_by = o;
        same_kind = ap (λ (c : Content). c.kind) same_content ∙ t.same_kind;
        open_payload = λ _. ap payload same_content ∙ t.open_payload open_;
        open_pending = λ _.
            ap (λ (c : Content). pending_of c.kind q) same_content
            ∙ grown
            ∙ ap (λ (x : Bytes). x ++ delta_bytes e.delta) (t.open_pending open_)
            ∙ sym w;
        ended_payload = λ h. absurd (cc (same_ended, open_, h));
        ended_valid = λ h. absurd (cc (same_ended, open_, h));
      }

  closed-Tells :
      (past : List Event) (e : Event) (p q : Part)
      → Tells past (part_key e) p
      → e.kind ≡ part_end
      → p.ended ≡ false
      → close_part is_object has_scheme p ≡ ok q
      → Tells (after past e) (part_key e) q
  closed-Tells past e p q t k open_ done =
      let (ended, kind, bytes, valid) = close_part_lem is_object has_scheme p q done in
      let (o, w) = quiet (part_key e) past e (ground arith) (ground arith) in
      record {
        content = t.content;
        opened_by = o ∙ t.opened_by;
        same_kind = kind ∙ t.same_kind;
        open_payload = λ h. absurd (cc (ended, h));
        open_pending = λ h. absurd (cc (ended, h));
        ended_payload = λ _. bytes ∙ rw (t.open_payload open_, t.open_pending open_, w);
        ended_valid = λ _. valid;
      }

  Consistent-after :
      (past : List Event) (e : Event) (r s : Reducer)
      → Consistent past r
      → Change is_object has_scheme e r s
      → Consistent (after past e) s
  Consistent-after past e r s c (same k kept) =
      let here = λ (key : PartKey). quiet key past e (ground arith) (ground arith) in
      record {
        told = λ key p h.
            Tells-quiet past (after past e) key p (here key)
              (c.told key p (subst (λ m. lookup key m ≡ some p) kept h));
        silent = λ key h.
            let (a, b) = c.silent key (subst (λ m. lookup key m ≡ none) kept h) in
            ((here key).0 ∙ a, (here key).1 ∙ b);
      }
  Consistent-after past e r s c (opened k new changed) =
      at_part past e r s (new_part (clone e.part)) c changed (opened-Tells past e r c k new)
  Consistent-after past e r s c (filled p k found open_ accepted changed) =
      at_part past e r s (write_delta e.delta.kind e.delta p) c changed
        (filled-Tells past e p (c.told (part_key e) p found) k open_ accepted)
  Consistent-after past e r s c (closed p q k found open_ done changed) =
      at_part past e r s q c changed
        (closed-Tells past e p q (c.told (part_key e) p found) k open_ done)

  reduce-Consistent :
      (past es : List Event) (r s : Reducer)
      → Consistent past r
      → reduce is_object has_scheme es r ≡ ok s
      → Consistent (past ++ es) s
  unfolding reduce
  reduce-Consistent past [] r s c h =
      subst (λ log. Consistent log s) (sym (append-nil past))
        (subst (Consistent past) (ground arith) c)
  reduce-Consistent past (e ∷ es) r s c h =
      let (t, one, rest) = reduce_inv is_object has_scheme e es r s h in
      let ih =
        reduce-Consistent (after past e) es t s
          (Consistent-after past e r t c (apply-Change is_object has_scheme e r t one)) rest in
      subst (λ log. Consistent log s) (append_assoc past (e ∷ []) es) ih

  -- Once the stream of a response has been reduced, every part that has ended is valid and carries the
  -- bytes of the block that opened it, followed by the bytes of all its deltas in order.
  pub reduce-written :
      (provider : Bytes) (es : List Event) (r : Reducer) (key : PartKey) (p : Part)
      → reduce is_object has_scheme es (new_reducer provider) ≡ ok r
      → lookup key r.parts ≡ some p
      → p.ended ≡ true
      → (c : Content) × (opening key es ≡ some c)
        × (p.content.kind ≡ c.kind)
        × (payload p.content ≡ payload c ++ written key es)
        × (validate is_object has_scheme p.content ≡ none)
  unfolding new_reducer opening written lookup
  reduce-written provider es r key p h found done =
      let fresh : Consistent [] (new_reducer provider) = record {
        told = λ key p h. absurd (cc (h));
        silent = λ key h. (refl, refl);
      } in
      let t = (reduce-Consistent [] es (new_reducer provider) r fresh h).told key p found in
      (t.content, t.opened_by, t.same_kind, t.ended_payload done, t.ended_valid done)
