-- ===== src/Tools/Coordinator/Tickets.antt =====
-- `discover` and `release` keep the invariant.
use serpe.Base.{
  ℕ, ◌<◌, ◌≡◌, ◌≢◌, ◌⊎◌, inl, inr, refl, subst, ◌∙◌, true, false, some, none, List, [], Assoc,
  lookup, has, put, remove, lookup-put, lookup-remove, length-remove, IsUnique, IsUnique-put,
  IsUnique-remove, nat_eq, arith, if◌then◌else◌, ==_iff, Bool-cases, Option-cases,
}
use serpe.Tools.Claims.{Claim, claims_conflict, IsDistinct}
use serpe.Tools.Coordinator.{
  Coordinator, ok, advance_frontier, discover, release_permit, drop_held, release,
}
use serpe.Tools.Coordinator.Invariant.{Inv, IsTight, advance_frontier-Inv, advance_frontier-IsTight}

no_conflict : (cs : List Claim) → claims_conflict [] cs ≡ false
unfolding claims_conflict
no_conflict cs = refl

pub has-put :
    {V : Type 0} (t s : ℕ) (x : V) (m : Assoc ℕ V)
    → has s (put t x m) ≡ true
    → (s ≡ t) ⊎ (has s m ≡ true)
has-put t s x m h = ground (arith, lookup-put t s x m, ==_iff t s)

has-remove :
    {V : Type 0} (t s : ℕ) (m : Assoc ℕ V) → has s (remove t m) ≡ true → (s ≢ t) × (has s m ≡ true)
has-remove t s m h = ground (arith, lookup-remove t s m, ==_iff t s)

pub final-put :
    (t s : ℕ) (cs f : List Claim) (m : Assoc ℕ (List Claim))
    → lookup s (put t cs m) ≡ some f
    → ((s ≡ t) × (f ≡ cs)) ⊎ ((s ≢ t) × (lookup s m ≡ some f))
final-put t s cs f m p = ground (arith, lookup-put t s cs m, ==_iff t s)

-- A pending ticket leaves the discovery phase with its complete claims.
settle-Inv :
    {n : ℕ} {c : Coordinator} (t : ℕ) (cs : List Claim)
    → Inv n c
    → has t c.pending ≡ true
    → IsDistinct cs
    → Inv n (record c { final = put t cs c.final; pending = remove t c.pending })
settle-Inv {n} {c} t cs v waiting dcs = record {
  capacity = v.capacity;
  accounted = v.accounted;
  frontier_le = v.frontier_le;
  pending_ahead = λ s h. v.pending_ahead s (has-remove t s c.pending h).1;
  pending_unsettled = λ s h. ground (arith, lookup-remove t s c.pending, v.pending_unsettled s h);
  released_known = v.released_known;
  held_known = v.held_known;
  final_known = λ s f p. elim (final-put t s cs f c.final p) [
    | inl (e, e') ↦ (rw e (v.pending_ahead t waiting).1, rw e' dcs)
    | inr (ne, q) ↦ v.final_known s f q
  ];
  exclusive = v.exclusive;
  ordered = λ o s f h l p r q. elim (final-put t o cs f c.final p) [
    | inl (e, e') ↦ absurd (omega (arith, (v.pending_ahead t waiting).0, (v.held_known s h q).0, e))
    | inr (ne, p') ↦ v.ordered o s f h l p' r q
  ];
  unique_held = v.unique_held;
  unique_final = IsUnique-put t cs c.final v.unique_final;
}

pub discover-Inv :
    {n : ℕ} {c d : Coordinator} (t : ℕ) (cs : List Claim)
    → Inv n c
    → IsDistinct cs
    → discover t cs c ≡ ok d
    → Inv n d
unfolding discover
discover-Inv {n} {c} t cs v dcs h = elim (Bool-cases (has t c.pending)) [
  | inl waiting ↦
      subst (λ x. Inv n x) (ground arith) (advance_frontier-Inv (settle-Inv t cs v waiting dcs))
  | inr done ↦ absurd (ground arith)
]

-- A ticket gives its claims and its slot back.
unhold-Inv :
    {n : ℕ} {c : Coordinator} (t : ℕ) {h : List Claim}
    → Inv n c
    → lookup t c.held ≡ some h
    → Inv n (record (release_permit c) { held = remove t c.held })
unfolding release_permit
unhold-Inv {n} {c} t {h} v holding =
    let shorter = length-remove t c.held v.unique_held holding in
    record {
      capacity = ground (arith, v.capacity);
      accounted = ground (arith, v.accounted, shorter);
      frontier_le = v.frontier_le;
      pending_ahead = v.pending_ahead;
      pending_unsettled = v.pending_unsettled;
      released_known = v.released_known;
      held_known = λ s a p. v.held_known s a (kept s a p);
      final_known = v.final_known;
      exclusive = λ s s' a b ne p q. v.exclusive s s' a b ne (kept s a p) (kept s' b q);
      ordered = λ o s f a l p r q. v.ordered o s f a l p r (kept s a q);
      unique_held = IsUnique-remove t c.held v.unique_held;
      unique_final = v.unique_final;
    }
  where
    kept : (s : ℕ) (a : List Claim) → lookup s (remove t c.held) ≡ some a → lookup s c.held ≡ some a
    kept s a p = ground (arith, lookup-remove t s c.held)

drop_held-Inv :
    {n : ℕ} {c : Coordinator} (t : ℕ)
    → Inv n c
    → Inv n (drop_held t c) × (lookup t (drop_held t c).held ≡ none)
unfolding drop_held
drop_held-Inv {n} {c} t v = elim (Option-cases (lookup t c.held)) [
  | inl idle ↦ rw (idle, drop_held) (v, idle)
  | inr (h, holding) ↦
      rw (holding, drop_held)
        (unhold-Inv t v holding, lookup-remove t t c.held ∙ rw ((==_iff t t).1 refl))
]

abbrev retired : ℕ → Assoc ℕ (List Claim) → Assoc ℕ (List Claim)
retired t m = if has t m then m else put t [] m

retired-lookup :
    (t s : ℕ) (f : List Claim) (m : Assoc ℕ (List Claim))
    → lookup s (retired t m) ≡ some f
    → ((s ≡ t) × (f ≡ [])) ⊎ (lookup s m ≡ some f)
retired-lookup t s f m p = elim (Bool-cases (has t m)) [
  | inl known ↦ inr (ground arith)
  | inr new ↦ ground (arith, lookup-put t s [] m, ==_iff t s)
]

retired-IsUnique : (t : ℕ) (m : Assoc ℕ (List Claim)) → IsUnique m → IsUnique (retired t m)
retired-IsUnique t m u = elim (Bool-cases (has t m)) [
  | inl known ↦ rw known u
  | inr new ↦ rw new (IsUnique-put t [] m u)
]

retire-Inv :
    {n : ℕ} {c : Coordinator} (t : ℕ)
    → Inv n c
    → t < c.next
    → lookup t c.held ≡ none
    → Inv n (record c {
      pending = remove t c.pending;
      final = retired t c.final;
      released = put t tt c.released;
    })
retire-Inv {n} {c} t v lt idle = record {
  capacity = v.capacity;
  accounted = v.accounted;
  frontier_le = v.frontier_le;
  pending_ahead = λ s h. v.pending_ahead s (has-remove t s c.pending h).1;
  pending_unsettled = λ s h. elim (has-put t s tt c.released h) [
    | inl e ↦ ground (arith, lookup-remove t s c.pending, ==_iff t s)
    | inr old ↦ ground (arith, lookup-remove t s c.pending, v.pending_unsettled s old)
  ];
  released_known = λ s h. elim (has-put t s tt c.released h) [
    | inl e ↦ rw e lt
    | inr old ↦ v.released_known s old
  ];
  held_known = λ s h p.
      let (a, b, r, d) = v.held_known s h p in
      (a, b, ground (arith, lookup-put t s tt c.released, ==_iff t s), d);
  final_known = λ s f p. elim (retired-lookup t s f c.final p) [
    | inl (e, e') ↦ (rw e lt, rw e' tt)
    | inr q ↦ v.final_known s f q
  ];
  exclusive = v.exclusive;
  ordered = λ o s f h l p r q. elim (retired-lookup t o f c.final p) [
    | inl (e, e') ↦ rw e' (no_conflict h)
    | inr p' ↦ v.ordered o s f h l p' (ground (arith, lookup-put t o tt c.released)) q
  ];
  unique_held = v.unique_held;
  unique_final = retired-IsUnique t c.final v.unique_final;
}

drop_held-next : (t : ℕ) (c : Coordinator) → (drop_held t c).next ≡ c.next
unfolding drop_held release_permit
drop_held-next t c = ground arith

pub release-Inv : {n : ℕ} {c : Coordinator} (t : ℕ) → Inv n c → t < c.next → Inv n (release t c)
unfolding release
release-Inv {n} {c} t v lt =
    let (v', idle) = drop_held-Inv t v in
    advance_frontier-Inv (retire-Inv t v' (rw drop_held-next lt) idle)

pub discover-IsTight :
    {n : ℕ} {c d : Coordinator} (t : ℕ) (cs : List Claim)
    → Inv n c
    → IsDistinct cs
    → discover t cs c ≡ ok d
    → IsTight d
unfolding discover
discover-IsTight {n} {c} {d} t cs v dcs h = elim (Bool-cases (has t c.pending)) [
  | inl waiting ↦
      subst IsTight
        {x = advance_frontier (record c { final = put t cs c.final; pending = remove t c.pending })}
        {y = d} (ground arith) (advance_frontier-IsTight (settle-Inv t cs v waiting dcs))
  | inr done ↦ absurd (ground arith)
]

pub release-IsTight :
    {n : ℕ} {c : Coordinator} (t : ℕ) → Inv n c → t < c.next → IsTight (release t c)
unfolding release
release-IsTight {n} {c} t v lt =
    let (v', idle) = drop_held-Inv t v in
    advance_frontier-IsTight (retire-Inv t v' (rw drop_held-next lt) idle)
