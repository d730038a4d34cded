-- ===== src/Tools/Coordinator.antt =====
-- core/tools/coordinator.go: submission tickets, callback permits and live resource claims.
-- The mutex makes each locked region one atomic step, so each is a function on the state. A wait on
-- `notify` is a later try of the same step: `try_grant` and `try_extend` return `none` while it is
-- not enabled. `signalLocked` only wakes the waiters and has no state of its own.
pub mod Invariant
pub mod Grants
pub mod Tickets
pub mod Classify
pub mod Register
pub mod Run
pub mod Recorded
pub mod Safety
pub mod Progress
pub use serpe.Base.{ok, err}
use serpe.Base.{
  Fallible, ℕ, zero, suc, ◌+◌, ◌-◌, ◌%◌, ◌^◌, ltb, leb, Bool, true, false, not, ◌&&◌, ◌||◌, Option,
  none, some, List, [], ◌∷◌, ◌++◌, ◌==◌, if◌then◌else◌, Assoc, lookup, has, put, remove,
  all_entries, nat_eq, length,
}
use serpe.Tools.Claims.{Claim, claims_conflict}

abbrev pub max_uint64 : ℕ
max_uint64 = 2 ^ 64 - 1

-- What `registerBatch` reads of a `preparedCall`.
pub record PreparedCall : Type 0 where
  pub is_rejected : Bool
  pub has_activator : Bool
  pub static : List Claim

-- A `*coordWaiter`: `address` is the pointer by which the code tells waiters apart, and `ticket` is
-- there when `hasTicket` is true.
pub record Waiter : Type 0 where
  pub address : ℕ
  pub seq : ℕ
  pub ticket : Option ℕ
  pub claims : List Claim

pub record Coordinator : Type 0 where
  pub next : ℕ
  pub frontier : ℕ
  pub exhausted : Bool
  pub pending : Assoc ℕ (Unit {0})
  pub final : Assoc ℕ (List Claim)
  pub released : Assoc ℕ (Unit {0})
  pub held : Assoc ℕ (List Claim)
  pub parallel : ℕ
  pub in_use : ℕ
  pub wait_seq : ℕ
  pub waiters : List Waiter

pub data Error : Type 0 where
  empty_batch tickets_exhausted : Error
  not_pending : ℕ → Error

abbrev pub Result {ℓ} : Type ℓ → Type ℓ
Result A = Fallible Error A

unfoldable pub new_coordinator : ℕ → Coordinator
new_coordinator parallel = record {
  next = 0;
  frontier = 0;
  exhausted = false;
  pending = [];
  final = [];
  released = [];
  held = [];
  parallel = parallel;
  in_use = 0;
  wait_seq = 0;
  waiters = [];
}

-- The loop of `advanceFrontierLocked`, from `frontier`, with `fuel` tickets up to `next`.
unfoldable pub advance : ℕ → Assoc ℕ (Unit {0}) → ℕ → ℕ
unfolding lookup
advance zero pending frontier = frontier
advance (suc fuel) pending frontier =
    let rest = advance fuel pending (suc frontier) in
    if has frontier pending then frontier else rest

unfoldable pub advance_frontier : Coordinator → Coordinator
unfolding advance
advance_frontier c = record c { frontier = advance (c.next - c.frontier) c.pending c.frontier }

-- The `switch` of `registerBatch` for one call.
unfoldable pub classify : ℕ → PreparedCall → Coordinator → Coordinator
unfolding put
classify ticket call c =
    if call.is_rejected
    then record c { final = put ticket [] c.final; released = put ticket tt c.released }
    else if call.has_activator
    then record c { pending = put ticket tt c.pending }
    else record c { final = put ticket call.static c.final }

unfoldable pub classify_all : ℕ → List PreparedCall → Coordinator → Coordinator
unfolding classify
classify_all ticket [] c = c
classify_all ticket (call ∷ calls) c = classify_all (suc ticket) calls (classify ticket call c)

unfoldable pub tickets_from : ℕ → List PreparedCall → List ℕ
tickets_from ticket [] = []
tickets_from ticket (call ∷ calls) = ticket ∷ tickets_from (suc ticket) calls

-- `c.next += n` and what follows it.
unfoldable pub claim_tickets : ℕ → Coordinator → Coordinator
unfolding advance_frontier
claim_tickets n c =
    let next = c.next + n in
    advance_frontier (record c { next = next; exhausted = c.exhausted || next == max_uint64 })

unfoldable pub register_batch : List PreparedCall → Coordinator → Result (List ℕ × Coordinator)
unfolding classify_all tickets_from claim_tickets
register_batch calls c =
    let n = length calls in
    if n == 0
    then err empty_batch
    else if c.exhausted || ltb (max_uint64 - n) c.next
    then err tickets_exhausted
    else ok (tickets_from c.next calls, claim_tickets n (classify_all c.next calls c))

unfoldable pub discover : ℕ → List Claim → Coordinator → Result Coordinator
unfolding lookup put remove advance_frontier
discover ticket claims c =
    if has ticket c.pending
    then ok (
        advance_frontier
          (record c { final = put ticket claims c.final; pending = remove ticket c.pending }))
    else err (not_pending ticket)

-- The two loops of `claimsFreeExceptLocked`.
unfoldable pub free_of_held : ℕ → List Claim → ℕ → List Claim → Bool
free_of_held ticket claims other held = other == ticket || not (claims_conflict held claims)

unfoldable pub free_of_earlier : ℕ → List Claim → Assoc ℕ (Unit {0}) → ℕ → List Claim → Bool
unfolding lookup
free_of_earlier ticket claims released other final =
    leb ticket other || has other released || not (claims_conflict final claims)

unfoldable pub claims_free_except : ℕ → List Claim → Coordinator → Bool
unfolding free_of_held free_of_earlier all_entries
claims_free_except ticket claims c =
    all_entries (free_of_held ticket claims) c.held
    && all_entries (free_of_earlier ticket claims c.released) c.final

unfoldable pub can_grant : Waiter → Coordinator → Bool
unfolding claims_free_except
can_grant w c = if leb c.parallel c.in_use then false else elim w.ticket [
  | none ↦ true
  | some ticket ↦ if ltb c.frontier ticket then false else claims_free_except ticket w.claims c
]

-- The loop of `earlierGrantableLocked` over `c.waiters`.
unfoldable pub earlier_grantable : Waiter → Coordinator → List Waiter → Bool
unfolding can_grant
earlier_grantable w c [] = false
earlier_grantable w c (prior ∷ rest) =
    if prior.address == w.address
    then false
    else if ltb prior.seq w.seq && can_grant prior c
    then true
    else earlier_grantable w c rest

unfoldable pub remove_waiter : ℕ → List Waiter → List Waiter
remove_waiter address [] = []
remove_waiter address (w ∷ ws) = if w.address == address then ws else w ∷ remove_waiter address ws

-- `acquirePermit` and `acquire` up to their first test: the waiter joins the queue.
unfoldable pub enqueue : ℕ → Option ℕ → List Claim → Coordinator → Coordinator
enqueue address ticket claims c =
    let seq = (c.wait_seq + 1) % 2 ^ 64 in
    let w : Waiter = record { address = address; seq = seq; ticket = ticket; claims = claims } in
    record c { wait_seq = seq; waiters = c.waiters ++ w ∷ [] }

unfoldable pub hold : Option ℕ → List Claim → Assoc ℕ (List Claim) → Assoc ℕ (List Claim)
unfolding put
hold none claims held = held
hold (some ticket) claims held = put ticket claims held

unfoldable pub grant : Waiter → Coordinator → Coordinator
unfolding remove_waiter hold
grant w c = record c {
  waiters = remove_waiter w.address c.waiters;
  in_use = c.in_use + 1;
  held = hold w.ticket w.claims c.held;
}

-- One round of the loop of `acquireWaiter`.
unfoldable pub try_grant : Waiter → Coordinator → Option Coordinator
unfolding can_grant earlier_grantable grant
try_grant w c =
    if can_grant w c && not (earlier_grantable w c c.waiters) then some (grant w c) else none

-- The branch of `acquireWaiter` that a done context takes.
unfoldable pub cancel : Waiter → Coordinator → Coordinator
unfolding remove_waiter
cancel w c = record c { waiters = remove_waiter w.address c.waiters }

-- `if c.inUse > 0 { c.inUse-- }`: the truncated subtraction is that guard.
unfoldable pub release_permit : Coordinator → Coordinator
release_permit c = record c { in_use = if ltb 0 c.in_use then c.in_use - 1 else c.in_use }

-- One round of the loop of `extend`.
unfoldable pub try_extend : ℕ → List Claim → Coordinator → Option Coordinator
unfolding claims_free_except put
try_extend ticket claims c =
    if claims_free_except ticket claims c
    then some (record c { held = put ticket claims c.held })
    else none

unfoldable pub drop_held : ℕ → Coordinator → Coordinator
unfolding lookup remove release_permit
drop_held ticket c =
    if has ticket c.held then record (release_permit c) { held = remove ticket c.held } else c

unfoldable pub release : ℕ → Coordinator → Coordinator
unfolding drop_held lookup put remove advance_frontier
release ticket c =
    let d = drop_held ticket c in
    advance_frontier (record d {
      pending = remove ticket d.pending;
      final = if has ticket d.final then d.final else put ticket [] d.final;
      released = put ticket tt d.released;
    })
