-- ===== src/Tools/Coordinator/Run.antt =====
-- The coordinator under any interleaving of the calls that share it, and what holds of every state
-- that is reached.
use serpe.Base.{
  ℕ, suc, ◌<◌, ◌≡◌, refl, ◌∙◌, false, Option, some, none, List, [], ◌∷◌, lookup, has, nat_eq, arith,
  All, inl, inr,
}
use serpe.Tools.Claims.{Claim, IsDistinct}
use serpe.Tools.Coordinator.{
  Coordinator, Waiter, PreparedCall, ok, new_coordinator, register_batch, discover, enqueue,
  try_grant, cancel, release_permit, try_extend, release, grant, classify_all, classify,
  claim_tickets, advance_frontier, drop_held,
}
use serpe.Tools.Coordinator.Invariant.{Inv, IsTight}
use serpe.Tools.Coordinator.Grants.{
  grant_permit-Inv, grant_call-Inv, try_extend-Inv, cancel-Inv, enqueue-Inv, release_permit-Inv,
}
use serpe.Tools.Coordinator.Tickets.{discover-Inv, release-Inv, discover-IsTight, release-IsTight}
use serpe.Tools.Coordinator.Register.{register_batch-Inv, register_batch-IsTight}

-- A coordinator with the number of permits that running `callPlan`s hold.
pub record System : Type 0 where
  pub coordinator : Coordinator
  pub plans : ℕ

-- One locked region. The premises are what `Start`, `callPlan` and `runCall` (batch.go) keep to: the
-- claims that reach the coordinator are normalized, a call acquires under its own ticket before it
-- releases it and does so once, it extends to the claims that it discovered while it holds its
-- ticket, and a plan gives back the permit that it took.
pub data Step : System → System → Type 0 where
  register :
      {c d : Coordinator} {n : ℕ} (calls : List PreparedCall) (tickets : List ℕ)
      → All (λ call. IsDistinct (PreparedCall.static call)) calls
      → register_batch calls c ≡ ok (tickets, d)
      → Step (record { coordinator = c; plans = n }) (record { coordinator = d; plans = n })
  discovered :
      {c d : Coordinator} {n : ℕ} (t : ℕ) (claims : List Claim)
      → IsDistinct claims
      → discover t claims c ≡ ok d
      → Step (record { coordinator = c; plans = n }) (record { coordinator = d; plans = n })
  queued :
      {c : Coordinator} {n : ℕ} (address : ℕ) (t : Option ℕ) (claims : List Claim)
      → Step
          (record { coordinator = c; plans = n })
          (record { coordinator = enqueue address t claims c; plans = n })
  granted_plan :
      {c d : Coordinator} {n : ℕ} (w : Waiter)
      → w.ticket ≡ none
      → try_grant w c ≡ some d
      → Step (record { coordinator = c; plans = n }) (record { coordinator = d; plans = suc n })
  granted_call :
      {c d : Coordinator} {n : ℕ} (w : Waiter) (t : ℕ)
      → w.ticket ≡ some t
      → t < c.next
      → has t c.released ≡ false
      → has t c.held ≡ false
      → IsDistinct w.claims
      → try_grant w c ≡ some d
      → Step (record { coordinator = c; plans = n }) (record { coordinator = d; plans = n })
  cancelled :
      {c : Coordinator} {n : ℕ} (w : Waiter)
      → Step
          (record { coordinator = c; plans = n })
          (record { coordinator = cancel w c; plans = n })
  extended :
      {c d : Coordinator} {n : ℕ} (t : ℕ) (claims old : List Claim)
      → lookup t c.held ≡ some old
      → lookup t c.final ≡ some claims
      → try_extend t claims c ≡ some d
      → Step (record { coordinator = c; plans = n }) (record { coordinator = d; plans = n })
  plan_done :
      {c : Coordinator} {n : ℕ}
      → Step
          (record { coordinator = c; plans = suc n })
          (record { coordinator = release_permit c; plans = n })
  call_done :
      {c : Coordinator} {n : ℕ} (t : ℕ)
      → t < c.next
      → Step
          (record { coordinator = c; plans = n })
          (record { coordinator = release t c; plans = n })

pub data Reach (s : System) : System → Type 0 where
  here : Reach s s
  next : {t u : System} → Reach s t → Step t u → Reach s u

abbrev pub start : ℕ → System
start parallel = record { coordinator = new_coordinator parallel; plans = 0 }

-- The invariant, with the frontier as far as it goes and the number of slots.
pub record SystemInv (parallel : ℕ) (s : System) : Type 0 where
  pub inv : Inv s.plans s.coordinator
  pub tight : IsTight s.coordinator
  pub slots : s.coordinator.parallel ≡ parallel

start-SystemInv : (parallel : ℕ) → SystemInv parallel (start parallel)
unfolding new_coordinator lookup
start-SystemInv parallel = record {
  inv = record {
    capacity = omega arith;
    accounted = omega arith;
    frontier_le = omega arith;
    pending_ahead = λ t h. absurd (cc);
    pending_unsettled = λ t h. absurd (cc);
    released_known = λ t h. absurd (cc);
    held_known = λ t h p. absurd (cc);
    final_known = λ t f p. absurd (cc);
    exclusive = λ s t a b ne p q. absurd (cc);
    ordered = λ o t f h l p r q. absurd (cc);
    unique_held = tt;
    unique_final = tt;
  };
  tight = inl refl;
  slots = refl;
}

Step-Inv : {s u : System} → Step s u → Inv s.plans s.coordinator → Inv u.plans u.coordinator
Step-Inv (register calls ts d e) v = register_batch-Inv calls v d e
Step-Inv (discovered t cs d e) v = discover-Inv t cs v d e
Step-Inv (queued a t cs) v = enqueue-Inv a t cs v
Step-Inv (granted_plan w p e) v = grant_permit-Inv w v p e
Step-Inv (granted_call w t p lt r h d e) v = grant_call-Inv w t v p lt r h d e
Step-Inv (cancelled w) v = cancel-Inv w v
Step-Inv (extended t cs old h f e) v = try_extend-Inv t cs v h (v.final_known t cs f).1 e
Step-Inv plan_done v = release_permit-Inv v
Step-Inv (call_done t lt) v = release-Inv t v lt

-- `acquire`, `extend` and `releasePermit` leave the discovery of claims alone.
SameTickets : Coordinator → Coordinator → Type 0
SameTickets c d = (c.next ≡ d.next) × (c.frontier ≡ d.frontier) × (c.pending ≡ d.pending)

SameTickets-IsTight : (c d : Coordinator) → SameTickets c d → IsTight c → IsTight d
unfolding SameTickets
SameTickets-IsTight c d (n, f, p) (inl e) = inl (cc)
SameTickets-IsTight c d (n, f, p) (inr e) = inr (rw (← f, ← p) e)

try_grant-SameTickets : (w : Waiter) (c d : Coordinator) → try_grant w c ≡ some d → SameTickets c d
unfolding SameTickets try_grant grant
try_grant-SameTickets w c d e = ground arith

try_extend-SameTickets :
    (t : ℕ) (cs : List Claim) (c d : Coordinator) → try_extend t cs c ≡ some d → SameTickets c d
unfolding SameTickets try_extend
try_extend-SameTickets t cs c d e = ground arith

Step-IsTight :
    {s u : System}
    → Step s u
    → Inv s.plans s.coordinator
    → IsTight s.coordinator
    → IsTight u.coordinator
Step-IsTight (register calls ts d e) v q = register_batch-IsTight calls v d e
Step-IsTight (discovered t cs d e) v q = discover-IsTight t cs v d e
Step-IsTight (queued a t cs) v q = unfold enqueue in q
Step-IsTight (granted_plan {c} {d} w p e) v q =
    SameTickets-IsTight c d (try_grant-SameTickets w c d e) q
Step-IsTight (granted_call {c} {d} w t p lt r h dcs e) v q =
    SameTickets-IsTight c d (try_grant-SameTickets w c d e) q
Step-IsTight (cancelled w) v q = unfold cancel in q
Step-IsTight (extended {c} {d} t cs old h f e) v q =
    SameTickets-IsTight c d (try_extend-SameTickets t cs c d e) q
Step-IsTight plan_done v q = unfold release_permit in q
Step-IsTight (call_done t lt) v q = release-IsTight t v lt

classify_all-parallel :
    (t : ℕ) (calls : List PreparedCall) (c : Coordinator)
    → (classify_all t calls c).parallel ≡ c.parallel
unfolding classify_all classify
classify_all-parallel t [] c = refl
classify_all-parallel t (call ∷ calls) c =
    classify_all-parallel (suc t) calls (classify t call c) ∙ ground arith

Step-parallel : {s u : System} → Step s u → u.coordinator.parallel ≡ s.coordinator.parallel
unfolding register_batch claim_tickets advance_frontier discover enqueue try_grant grant cancel
    try_extend release release_permit drop_held
Step-parallel (register {c} calls ts d e) = ground (arith, classify_all-parallel c.next calls c)
Step-parallel (discovered t cs d e) = ground arith
Step-parallel (queued a t cs) = refl
Step-parallel (granted_plan w p e) = ground arith
Step-parallel (granted_call w t p lt r h d e) = ground arith
Step-parallel (cancelled w) = refl
Step-parallel (extended t cs old h f e) = ground arith
Step-parallel plan_done = refl
Step-parallel (call_done t lt) = ground arith

-- Every state that is reached from a new coordinator satisfies the invariant.
pub Reach-SystemInv : (parallel : ℕ) {s : System} → Reach (start parallel) s → SystemInv parallel s
Reach-SystemInv parallel here = start-SystemInv parallel
Reach-SystemInv parallel (next r st) =
    let v = Reach-SystemInv parallel r in
    record {
      inv = Step-Inv st v.inv;
      tight = Step-IsTight st v.inv v.tight;
      slots = Step-parallel st ∙ v.slots;
    }
