-- ===== src/Tools/Coordinator/Grants.antt =====
-- The locked regions of core/tools/coordinator.go that grant, extend and cancel, and the invariant.
use serpe.Base.{
  ℕ, suc, ◌+◌, ◌≤◌, ◌<◌, ◌≡◌, ◌≢◌, ◌⊎◌, inl, inr, sym, subst, ◌∙◌, true, false, Option, some, none,
  List, Assoc, lookup, has, put, all_entries-lookup, lookup-put, length-remove, remove_absent,
  IsUnique, IsUnique-put, nat_eq, length, arith, ==_iff,
}
use serpe.Tools.Claims.{Claim, claims_conflict, IsDistinct}
use serpe.Tools.Claims.Conflict.{claims_conflict_comm}
use serpe.Tools.Coordinator.{
  Coordinator, Waiter, free_of_held, free_of_earlier, claims_free_except, can_grant, grant,
  try_grant, remove_waiter, hold, cancel, enqueue, release_permit, try_extend,
}
use serpe.Tools.Coordinator.Invariant.{Inv}

-- What a successful test of the claims says.
pub claims_free_except-held :
    (t : ℕ) (cs : List Claim) (c : Coordinator)
    → claims_free_except t cs c ≡ true
    → (s : ℕ) (h : List Claim) → s ≢ t
    → lookup s c.held ≡ some h
    → claims_conflict h cs ≡ false
unfolding claims_free_except free_of_held
claims_free_except-held t cs c free s h ne p =
    ground (arith, all_entries-lookup (free_of_held t cs) c.held {k = s} {v = h}, ==_iff s t)

pub claims_free_except-final :
    (t : ℕ) (cs : List Claim) (c : Coordinator)
    → claims_free_except t cs c ≡ true
    → (o : ℕ) (f : List Claim) → o < t
    → lookup o c.final ≡ some f
    → has o c.released ≡ false
    → claims_conflict f cs ≡ false
unfolding claims_free_except free_of_earlier
claims_free_except-final t cs c free o f lt p r =
    ground (arith, all_entries-lookup (free_of_earlier t cs c.released) c.final {k = o} {v = f})

-- What the queue and the count of slots may change to.
queue-Inv :
    {n : ℕ} {c : Coordinator} (n' u q : ℕ) (ws : List Waiter)
    → Inv n c
    → u ≤ c.parallel
    → u ≡ length c.held + n'
    → Inv n' (record c { in_use = u; wait_seq = q; waiters = ws })
queue-Inv n' u q ws v cap acc = record {
  capacity = cap;
  accounted = acc;
  frontier_le = v.frontier_le;
  pending_ahead = v.pending_ahead;
  pending_unsettled = v.pending_unsettled;
  released_known = v.released_known;
  held_known = v.held_known;
  final_known = v.final_known;
  exclusive = v.exclusive;
  ordered = v.ordered;
  unique_held = v.unique_held;
  unique_final = v.unique_final;
}

held-put :
    (t s : ℕ) (cs h : List Claim) (m : Assoc ℕ (List Claim))
    → lookup s (put t cs m) ≡ some h
    → ((s ≡ t) × (h ≡ cs)) ⊎ ((s ≢ t) × (lookup s m ≡ some h))
held-put t s cs h m p = ground (arith, lookup-put t s cs m, ==_iff t s)

-- A ticket takes the claims of a successful test.
put_held-Inv :
    {n : ℕ} {c : Coordinator} (n' u t : ℕ) (cs : List Claim) (ws : List Waiter)
    → Inv n c
    → claims_free_except t cs c ≡ true
    → t ≤ c.frontier
    → t < c.next
    → has t c.released ≡ false
    → IsDistinct cs
    → u ≤ c.parallel
    → u ≡ length (put t cs c.held) + n'
    → Inv n' (record c { held = put t cs c.held; in_use = u; waiters = ws })
put_held-Inv {n} {c} n' u t cs ws v free le lt open_ dcs cap acc = record {
  capacity = cap;
  accounted = acc;
  frontier_le = v.frontier_le;
  pending_ahead = v.pending_ahead;
  pending_unsettled = v.pending_unsettled;
  released_known = v.released_known;
  held_known = λ s h p. elim (held-put t s cs h c.held p) [
    | inl (e, e') ↦ (rw e le, rw e lt, rw e open_, rw e' dcs)
    | inr (ne, q) ↦ v.held_known s h q
  ];
  final_known = v.final_known;
  exclusive = λ s s' a b ne p q. elim (held-put t s cs a c.held p) [
    | inl (e, e') ↦ elim (held-put t s' cs b c.held q) [
      | inl (f, f') ↦ absurd (ne (e ∙ sym f))
      | inr (f, q') ↦ rw e' (
          claims_conflict_comm cs b dcs (v.held_known s' b q').3
          ∙ claims_free_except-held t cs c free s' b f q')
    ]
    | inr (e, p') ↦ elim (held-put t s' cs b c.held q) [
      | inl (f, f') ↦ rw f' (claims_free_except-held t cs c free s a e p')
      | inr (f, q') ↦ v.exclusive s s' a b ne p' q'
    ]
  ];
  ordered = λ o s f h l p r q. elim (held-put t s cs h c.held q) [
    | inl (e, e') ↦ rw e' (claims_free_except-final t cs c free o f (omega arith) p r)
    | inr (ne, q') ↦ v.ordered o s f h l p r q'
  ];
  unique_held = IsUnique-put t cs c.held v.unique_held;
  unique_final = v.unique_final;
}

put_new-length :
    (t : ℕ) (cs : List Claim) (m : Assoc ℕ (List Claim))
    → has t m ≡ false
    → length (put t cs m) ≡ suc (length m)
unfolding put
put_new-length t cs m h = ground (arith, remove_absent t m)

put_old-length :
    (t : ℕ) (cs h : List Claim) (m : Assoc ℕ (List Claim))
    → IsUnique m
    → lookup t m ≡ some h
    → length (put t cs m) ≡ length m
unfolding put
put_old-length t cs h m u p = length-remove t m u p

try_grant_inv :
    (w : Waiter) (c : Coordinator) {d : Coordinator}
    → try_grant w c ≡ some d
    → (can_grant w c ≡ true) × (grant w c ≡ d)
unfolding try_grant
try_grant_inv w c h = ground arith

can_grant_slot : (w : Waiter) (c : Coordinator) → can_grant w c ≡ true → c.in_use < c.parallel
unfolding can_grant
can_grant_slot w c h = ground arith

pub can_grant_call :
    (w : Waiter) (c : Coordinator) (t : ℕ)
    → w.ticket ≡ some t
    → can_grant w c ≡ true
    → (t ≤ c.frontier) × (claims_free_except t w.claims c ≡ true)
unfolding can_grant
can_grant_call w c t e h = ground arith

grant-none :
    (w : Waiter) (c : Coordinator)
    → w.ticket ≡ none
    → grant w c ≡ record c { in_use = suc c.in_use; waiters = remove_waiter w.address c.waiters }
unfolding grant hold
grant-none w c e = ground arith

grant_call :
    (w : Waiter) (c : Coordinator) (t : ℕ)
    → w.ticket ≡ some t
    → grant w c ≡ record c {
      held = put t w.claims c.held;
      in_use = c.in_use + 1;
      waiters = remove_waiter w.address c.waiters;
    }
unfolding grant hold
grant_call w c t e = rw e

-- A permit for a plan takes a slot, and no claim.
pub grant_permit-Inv :
    {n : ℕ} {c d : Coordinator} (w : Waiter)
    → Inv n c
    → w.ticket ≡ none
    → try_grant w c ≡ some d
    → Inv (suc n) d
grant_permit-Inv {n} {c} w v no_ticket h =
    let (can, eq) = try_grant_inv w c h in
    let slot = can_grant_slot w c can in
    subst (λ x. Inv (suc n) x) (sym (grant-none w c no_ticket) ∙ eq)
      (queue-Inv (suc n) (suc c.in_use) c.wait_seq (remove_waiter w.address c.waiters) v slot
        (omega (arith, v.accounted)))

-- A call that is granted its claims holds them alone.
pub grant_call-Inv :
    {n : ℕ} {c d : Coordinator} (w : Waiter) (t : ℕ)
    → Inv n c
    → w.ticket ≡ some t
    → t < c.next
    → has t c.released ≡ false
    → has t c.held ≡ false
    → IsDistinct w.claims
    → try_grant w c ≡ some d
    → Inv n d
grant_call-Inv {n} {c} {d} w t v is_call lt open_ idle dcs h =
    let (can, eq) = try_grant_inv w c h in
    let (le, free) = can_grant_call w c t is_call can in
    subst (λ x. Inv n x) (sym (grant_call w c t is_call) ∙ eq)
      (put_held-Inv n (c.in_use + 1) t w.claims (remove_waiter w.address c.waiters) v free le lt
        open_ dcs (omega (arith, can_grant_slot w c can))
        (omega (arith, put_new-length t w.claims c.held idle, v.accounted)))

pub try_extend-Inv :
    {n : ℕ} {c d : Coordinator} (t : ℕ) (cs : List Claim) {h : List Claim}
    → Inv n c
    → lookup t c.held ≡ some h
    → IsDistinct cs
    → try_extend t cs c ≡ some d
    → Inv n d
unfolding try_extend
try_extend-Inv {n} {c} {d} t cs {h} v holding dcs e =
    let (le, lt, open_, _) = v.held_known t h holding in
    subst (λ x. Inv n x) (ground arith)
      (put_held-Inv n c.in_use t cs c.waiters v (ground arith) le lt open_ dcs v.capacity
        (omega (arith, put_old-length t cs h c.held v.unique_held holding, v.accounted)))

pub cancel-Inv : {n : ℕ} {c : Coordinator} (w : Waiter) → Inv n c → Inv n (cancel w c)
unfolding cancel
cancel-Inv {n} {c} w v =
    queue-Inv n c.in_use c.wait_seq (remove_waiter w.address c.waiters) v v.capacity v.accounted

pub enqueue-Inv :
    {n : ℕ} {c : Coordinator} (a : ℕ) (t : Option ℕ) (cs : List Claim)
    → Inv n c
    → Inv n (enqueue a t cs c)
unfolding enqueue
enqueue-Inv {n} {c} a t cs v = queue-Inv n c.in_use _ _ v v.capacity v.accounted

pub release_permit-Inv : {n : ℕ} {c : Coordinator} → Inv (suc n) c → Inv n (release_permit c)
unfolding release_permit
release_permit-Inv {n} {c} v =
    queue-Inv n _ c.wait_seq c.waiters v (ground (arith, v.capacity)) (ground (arith, v.accounted))
