-- ===== src/Tools/Coordinator/Classify.antt =====
-- `registerBatch` announces a ticket for each call, and keeps the invariant.
use serpe.Base.{
  ℕ, suc, ◌≤◌, ◌<◌, ◌≡◌, inl, inr, true, false, some, List, [], Assoc, lookup, has, put, lookup-put,
  IsUnique-put, nat_eq, arith, ==_iff, Bool-cases,
}
use serpe.Tools.Claims.{Claim, IsDistinct}
use serpe.Tools.Coordinator.{Coordinator, PreparedCall, classify}
use serpe.Tools.Coordinator.Invariant.{Inv}
use serpe.Tools.Coordinator.Tickets.{has-put, final-put}

-- Nothing is known of the tickets from `t` on.
pub record Fresh (t : ℕ) (c : Coordinator) : Type 0 where
  pub fresh_frontier : c.frontier ≤ t
  pub fresh_pending : (s : ℕ) → has s c.pending ≡ true → s < t
  pub fresh_released : (s : ℕ) → has s c.released ≡ true → s < t
  pub fresh_held : (s : ℕ) (h : List Claim) → lookup s c.held ≡ some h → s < t

not_has : (t : ℕ) {V : Type 0} (m : Assoc ℕ V) → (has t m ≡ true → t < t) → has t m ≡ false
not_has t m f = elim (Bool-cases (has t m)) [
  | inl yes_ ↦ absurd (omega (arith, f yes_))
  | inr h ↦ h
]

-- A new ticket with known claims, released at once if `r` says so.
announce-Inv :
    {n : ℕ} {c : Coordinator} (t : ℕ) (cs : List Claim)
    → Inv n c
    → Fresh t c
    → t < c.next
    → IsDistinct cs
    → Inv n (record c { final = put t cs c.final })
announce-Inv {n} {c} t cs v new lt dcs = record {
  capacity = v.capacity;
  accounted = v.accounted;
  frontier_le = v.frontier_le;
  pending_ahead = v.pending_ahead;
  pending_unsettled = v.pending_unsettled;
  released_known = v.released_known;
  held_known = v.held_known;
  final_known = λ s f p. elim (final-put t s cs f c.final p) [
    | inl (e, e') ↦ (rw e lt, rw e' dcs)
    | inr (ne, q) ↦ v.final_known s f q
  ];
  exclusive = v.exclusive;
  ordered = λ o s f h l p r q. elim (final-put t o cs f c.final p) [
    | inl (e, e') ↦ absurd (omega (arith, new.fresh_held s h q, e))
    | inr (ne, p') ↦ v.ordered o s f h l p' r q
  ];
  unique_held = v.unique_held;
  unique_final = IsUnique-put t cs c.final v.unique_final;
}

reject-Inv :
    {n : ℕ} {c : Coordinator} (t : ℕ)
    → Inv n c
    → Fresh t c
    → t < c.next
    → Inv n (record c { final = put t [] c.final; released = put t tt c.released })
reject-Inv {n} {c} t v new lt =
    let a = announce-Inv t [] v new lt tt in
    record {
      capacity = a.capacity;
      accounted = a.accounted;
      frontier_le = a.frontier_le;
      pending_ahead = a.pending_ahead;
      pending_unsettled = λ s h. elim (has-put t s tt c.released h) [
        | inl e ↦ rw e (not_has t c.pending (new.fresh_pending t))
        | inr old ↦ v.pending_unsettled s old
      ];
      released_known = λ s h. elim (has-put t s tt c.released h) [
        | inl e ↦ rw e lt
        | inr old ↦ v.released_known s old
      ];
      held_known = λ s h p.
          let (x, y, r, d) = v.held_known s h p in
          let below = new.fresh_held s h p in
          (x, y, ground (arith, lookup-put t s tt c.released, ==_iff t s), d);
      final_known = a.final_known;
      exclusive = v.exclusive;
      ordered =
          λ o s f h l p r q. a.ordered o s f h l p (ground (arith, lookup-put t o tt c.released)) q;
      unique_held = v.unique_held;
      unique_final = a.unique_final;
    }

await-Inv :
    {n : ℕ} {c : Coordinator} (t : ℕ)
    → Inv n c
    → Fresh t c
    → t < c.next
    → Inv n (record c { pending = put t tt c.pending })
await-Inv {n} {c} t v new lt = record {
  capacity = v.capacity;
  accounted = v.accounted;
  frontier_le = v.frontier_le;
  pending_ahead = λ s h. elim (has-put t s tt c.pending h) [
    | inl e ↦ (rw e new.fresh_frontier, rw e lt)
    | inr old ↦ v.pending_ahead s old
  ];
  pending_unsettled = λ s h.
      let below = new.fresh_released s h in
      ground (arith, lookup-put t s tt c.pending, ==_iff t s, v.pending_unsettled s h);
  released_known = v.released_known;
  held_known = v.held_known;
  final_known = v.final_known;
  exclusive = v.exclusive;
  ordered = v.ordered;
  unique_held = v.unique_held;
  unique_final = v.unique_final;
}

pub classify-Inv :
    {n : ℕ} {c : Coordinator} (t : ℕ) (call : PreparedCall)
    → Inv n c
    → Fresh t c
    → t < c.next
    → IsDistinct call.static
    → Inv n (classify t call c)
unfolding classify
classify-Inv t call v new lt d = elim (Bool-cases call.is_rejected) [
  | inl rejected ↦ rw rejected (reject-Inv t v new lt)
  | inr sound ↦ rw sound (elim (Bool-cases call.has_activator) [
    | inl later ↦ rw later (await-Inv t v new lt)
    | inr now ↦ rw now (announce-Inv t call.static v new lt d)
  ])
]

pub Fresh-classify :
    {c : Coordinator} (t : ℕ) (call : PreparedCall) → Fresh t c → Fresh (suc t) (classify t call c)
unfolding classify
Fresh-classify {c} t call new = elim (Bool-cases call.is_rejected) [
  | inl rejected ↦
      rw (rejected, classify)
        (record {
          fresh_frontier = omega (arith, new.fresh_frontier);
          fresh_pending = λ s h. let b = new.fresh_pending s h in omega arith;
          fresh_released = λ s h. elim (has-put t s tt c.released h) [
            | inl e ↦ omega (arith, e)
            | inr old ↦ omega (arith, new.fresh_released s old)
          ];
          fresh_held = λ s h p. omega (arith, new.fresh_held s h p);
        })
  | inr sound ↦
      rw (sound, classify)
        (elim (Bool-cases call.has_activator) [
          | inl later ↦ rw later (record {
            fresh_frontier = omega (arith, new.fresh_frontier);
            fresh_pending = λ s h. elim (has-put t s tt c.pending h) [
              | inl e ↦ omega (arith, e)
              | inr old ↦ omega (arith, new.fresh_pending s old)
            ];
            fresh_released = λ s h. omega (arith, new.fresh_released s h);
            fresh_held = λ s h p. omega (arith, new.fresh_held s h p);
          })
          | inr now ↦ rw now (record {
            fresh_frontier = omega (arith, new.fresh_frontier);
            fresh_pending = λ s h. omega (arith, new.fresh_pending s h);
            fresh_released = λ s h. omega (arith, new.fresh_released s h);
            fresh_held = λ s h p. omega (arith, new.fresh_held s h p);
          })
        ])
]
