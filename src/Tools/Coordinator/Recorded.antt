-- ===== src/Tools/Coordinator/Recorded.antt =====
-- The claims that core/tools/coordinator.go records of the calls, against those that the calls have
-- announced: at their registration where these are complete, and otherwise when they are discovered.
use serpe.Base.{
  ℕ, suc, ◌+◌, ◌≤◌, ◌<◌, ◌≡◌, refl, ap, ◌∙◌, ◌⊎◌, inl, inr, true, Option, none, some, List, [], ◌∷◌,
  ◌||◌, ltb, ◌==◌, ==_iff, nat_eq, if◌then◌else◌, length, lookup, has, lookup-put, lookup-remove,
  Bool, Bool-cases, arith,
}
use serpe.Tools.Claims.{Claim}
use serpe.Tools.Coordinator.{
  Coordinator, PreparedCall, ok, new_coordinator, register_batch, classify, classify_all,
  claim_tickets, advance_frontier, discover, enqueue, try_grant, grant, cancel, release_permit,
  try_extend, drop_held, release,
}
use serpe.Tools.Coordinator.Register.{classify_all-next}
use serpe.Tools.Coordinator.Run.{
  System, Step, register, discovered, queued, granted_plan, granted_call, cancelled, extended,
  plan_done, call_done, Reach, here, next, start,
}

-- What a call announces when it is registered, if its claims are complete.
abbrev pub claims_at : PreparedCall → Option (List Claim)
claims_at call =
    if call.is_rejected then some [] else if call.has_activator then none else some call.static

abbrev or_else : Option (List Claim) → Option (List Claim) → Option (List Claim)
or_else none old = old
or_else (some new) old = some new

-- What a batch announces for the ticket `o`, from the ticket `t` on.
abbrev pub announced_in : ℕ → List PreparedCall → ℕ → Option (List Claim)
announced_in t [] o = none
announced_in t (call ∷ calls) o =
    or_else (announced_in (suc t) calls o) (if t == o then claims_at call else none)

-- What has been announced for a ticket by the steps so far. A call that is released before its claims
-- are discovered has announced none.
unfoldable pub announced : {s u : System} → Reach s u → ℕ → Option (List Claim)
announced here o = none
announced (next r (register {c} calls ts d e)) o =
    or_else (announced_in c.next calls o) (announced r o)
announced (next r (discovered t claims d e)) o = if t == o then some claims else announced r o
announced (next r (call_done t lt)) o = or_else (announced r o) (if t == o then some [] else none)
announced (next r (queued a t cs)) o = announced r o
announced (next r (granted_plan w p e)) o = announced r o
announced (next r (granted_call w t p lt rel h d e)) o = announced r o
announced (next r (cancelled w)) o = announced r o
announced (next r (extended t cs old h f e)) o = announced r o
announced (next r plan_done) o = announced r o

or_else_assoc : (a b c : Option (List Claim)) → or_else a (or_else b c) ≡ or_else (or_else a b) c
or_else_assoc none b c = refl
or_else_assoc (some x) b c = refl

classify-final :
    (t o : ℕ) (call : PreparedCall) (c : Coordinator)
    → lookup o (classify t call c).final
      ≡ or_else (if t == o then claims_at call else none) (lookup o c.final)
unfolding classify
classify-final t o call c =
    ground (arith, lookup-put t o [] c.final, lookup-put t o call.static c.final)

classify_all-final :
    (t o : ℕ) (calls : List PreparedCall) (c : Coordinator)
    → lookup o (classify_all t calls c).final ≡ or_else (announced_in t calls o) (lookup o c.final)
unfolding classify_all
classify_all-final t o [] c = refl
classify_all-final t o (call ∷ calls) c =
    classify_all-final (suc t) o calls (classify t call c)
    ∙ ap (or_else (announced_in (suc t) calls o)) (classify-final t o call c)
    ∙ or_else_assoc (announced_in (suc t) calls o) (if t == o then claims_at call else none)
        (lookup o c.final)

register_batch-final :
    (calls : List PreparedCall) (c d : Coordinator) (ts : List ℕ) (o : ℕ)
    → register_batch calls c ≡ ok (ts, d)
    → lookup o d.final ≡ or_else (announced_in c.next calls o) (lookup o c.final)
unfolding register_batch claim_tickets advance_frontier
register_batch-final calls c d ts o e = ground (arith, classify_all-final c.next o calls c)

discover-final :
    (t : ℕ) (cs : List Claim) (c d : Coordinator) (o : ℕ)
    → discover t cs c ≡ ok d
    → lookup o d.final ≡ (if t == o then some cs else lookup o c.final)
unfolding discover advance_frontier
discover-final t cs c d o e = ground (arith, lookup-put t o cs c.final)

release-final :
    (t : ℕ) (c : Coordinator) (o : ℕ)
    → lookup o (release t c).final ≡ or_else (lookup o c.final) (if t == o then some [] else none)
unfolding release drop_held release_permit advance_frontier
release-final t c o = elim (Bool-cases (t == o)) [
  | inl same ↦ ground (arith, lookup-put t o [] c.final, ==_iff t o)
  | inr other ↦ ground (arith, lookup-put t o [] c.final)
]

-- The coordinator records exactly the claims that have been announced.
pub announced-final :
    (parallel : ℕ) {s : System} (r : Reach (start parallel) s) (o : ℕ)
    → lookup o s.coordinator.final ≡ announced r o
unfolding announced new_coordinator lookup enqueue try_grant grant cancel release_permit try_extend
announced-final parallel here o = refl
announced-final parallel (next r (register {c} {d} calls ts dc e)) o =
    register_batch-final calls c d ts o e
    ∙ ap (or_else (announced_in c.next calls o)) (announced-final parallel r o)
announced-final parallel (next r (discovered {c} {d} t cs dc e)) o =
    discover-final t cs c d o e
    ∙ ap (λ a. if t == o then some cs else a) (announced-final parallel r o)
announced-final parallel (next r (call_done {c} t lt)) o =
    release-final t c o
    ∙ ap (λ a. or_else a (if t == o then some [] else none)) (announced-final parallel r o)
announced-final parallel (next r (queued a t cs)) o = announced-final parallel r o
announced-final parallel (next r (granted_plan {c} {d} w p e)) o =
    ground (arith, announced-final parallel r o)
announced-final parallel (next r (granted_call {c} {d} w t p lt rel h dc e)) o =
    ground (arith, announced-final parallel r o)
announced-final parallel (next r (cancelled w)) o = announced-final parallel r o
announced-final parallel (next r (extended {c} {d} t cs old h f e)) o =
    ground (arith, announced-final parallel r o)
announced-final parallel (next r plan_done) o = announced-final parallel r o

-- The claims of a ticket are recorded, or its call has not discovered them yet.
abbrev is_known : ℕ → Coordinator → Bool
is_known o c = has o c.pending || has o c.final

classify-known :
    (t o : ℕ) (call : PreparedCall) (c : Coordinator)
    → is_known o (classify t call c) ≡ (t == o || is_known o c)
unfolding classify
classify-known t o call c = ground (
  arith,
  lookup-put t o [] c.final,
  lookup-put t o call.static c.final,
  lookup-put t o tt c.pending,
)

classify_all-known :
    (t o : ℕ) (calls : List PreparedCall) (c : Coordinator)
    → (is_known o c ≡ true) ⊎ ((t ≤ o) × (o < t + length calls))
    → is_known o (classify_all t calls c) ≡ true
unfolding classify_all
classify_all-known t o [] c (inl known) = known
classify_all-known t o [] c (inr range) = absurd (omega (arith, range.0, range.1))
classify_all-known t o (call ∷ calls) c h =
    classify_all-known (suc t) o calls (classify t call c) (elim (Bool-cases (t == o)) [
      | inl same ↦ inl (classify-known t o call c ∙ rw same refl)
      | inr other ↦ elim h [
        | inl known ↦ inl (classify-known t o call c ∙ rw (other, known) refl)
        | inr range ↦ inr (ground (arith, other, range.0), omega (arith, range.1))
      ]
    ])

abbrev AreKnown : Coordinator → Type 0
AreKnown c = (o : ℕ) → o < c.next → is_known o c ≡ true

register_batch-AreKnown :
    (calls : List PreparedCall) (c d : Coordinator) (ts : List ℕ)
    → register_batch calls c ≡ ok (ts, d)
    → AreKnown c
    → AreKnown d
unfolding register_batch claim_tickets advance_frontier
register_batch-AreKnown calls c d ts e known o lt =
    let all = classify_all c.next calls c in
    let same : all.next ≡ c.next = classify_all-next c.next calls c in
    let until : d.next ≡ all.next + length calls = ground arith in
    let here_known : is_known o all ≡ true =
      classify_all-known c.next o calls c (elim (Bool-cases (ltb o c.next)) [
        | inl old ↦ inl (known o (ground (arith, old)))
        | inr new ↦ inr (ground (arith, new), omega (arith, lt, until, same))
      ]) in
    ground (arith, here_known)

discover-AreKnown :
    (t : ℕ) (cs : List Claim) (c d : Coordinator) → discover t cs c ≡ ok d → AreKnown c → AreKnown d
unfolding discover advance_frontier
discover-AreKnown t cs c d e known o lt =
    ground (arith, known o, lookup-put t o cs c.final, lookup-remove t o c.pending)

release-AreKnown : (t : ℕ) (c : Coordinator) → AreKnown c → AreKnown (release t c)
unfolding release drop_held release_permit advance_frontier
release-AreKnown t c known o lt = elim (Bool-cases (t == o)) [
  | inl same ↦ ground (arith, same, ==_iff t o, lookup-put t o [] c.final)
  | inr other ↦
      ground (arith, other, known o, lookup-put t o [] c.final, lookup-remove t o c.pending)
]

Step-AreKnown : {s u : System} → Step s u → AreKnown s.coordinator → AreKnown u.coordinator
unfolding enqueue try_grant grant cancel release_permit try_extend
Step-AreKnown (register {c} {d} calls ts dc e) known = register_batch-AreKnown calls c d ts e known
Step-AreKnown (discovered {c} {d} t cs dc e) known = discover-AreKnown t cs c d e known
Step-AreKnown (queued a t cs) known = known
Step-AreKnown (granted_plan w p e) known = λ o lt. ground (arith, known o)
Step-AreKnown (granted_call w t p lt rel h dc e) known = λ o lt. ground (arith, known o)
Step-AreKnown (cancelled w) known = known
Step-AreKnown (extended t cs old h f e) known = λ o lt. ground (arith, known o)
Step-AreKnown plan_done known = known
Step-AreKnown (call_done {c} t lt) known = release-AreKnown t c known

pub Reach-AreKnown : (parallel : ℕ) {s : System} → Reach (start parallel) s → AreKnown s.coordinator
unfolding new_coordinator
Reach-AreKnown parallel here = λ o lt. absurd (omega (arith, lt))
Reach-AreKnown parallel (next r st) = Step-AreKnown st (Reach-AreKnown parallel r)
