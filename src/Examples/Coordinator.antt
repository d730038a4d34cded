-- ===== src/Examples/Coordinator.antt =====
-- A batch of three calls on two slots: the first two write different files and run at once, and the
-- third is the activator of a call that still has to discover its claims.
use serpe.Base.{
  ℕ, ◌+◌, ◌≤◌, ◌≡◌, ◌≢◌, ◌↔◌, refl, inr, Bool, true, false, some, none, List, [], ◌∷◌, lookup, has,
  length, nat_eq, bytes_eq, bytes_beq, codes, arith, ltb,
}
use mathlib.Core.List.{Mem, mem-cons_self}
use serpe.Tools.Claims.{
  Claim, access_read, access_write, normalize_claims, extend_claims, ok, claims_conflict, entries,
  IsDistinct,
}
use serpe.Tools.Claims.Conflict.{Clash, claims_conflict-Clash}
use serpe.Tools.Claims.Merge.{normalize_claims-strongest, strongest, extend_claims-keeps}
use serpe.Tools.Coordinator.{
  Coordinator, Waiter, PreparedCall, new_coordinator, register_batch, classify_all, claim_tickets,
  grant, try_grant, can_grant, try_extend,
}
use serpe.Tools.Coordinator.Run.{System, Reach, here, next, register, granted_call, start}
use serpe.Tools.Coordinator.Recorded.{announced}
use serpe.Tools.Coordinator.Safety.{IsClear, held_apart, slots_bounded, no_overtaking}
use serpe.Tools.Coordinator.Progress.{IsOldest, oldest_progresses, queue_not_stuck}

abbrev claims_a : List Claim
claims_a =
    record { resource = codes "a"; access = access_write }
    ∷ record { resource = codes "r"; access = access_read }
    ∷ []

abbrev claims_b : List Claim
claims_b =
    record { resource = codes "b"; access = access_write }
    ∷ record { resource = codes "r"; access = access_read }
    ∷ []

abbrev call : List Claim → Bool → PreparedCall
call claims activator = record { is_rejected = false; has_activator = activator; static = claims }

abbrev batch : List PreparedCall
batch = call claims_a false ∷ call claims_b false ∷ call claims_a true ∷ []

registered : Coordinator
registered = claim_tickets 3 (classify_all 0 batch (new_coordinator 2))

abbrev waiter : ℕ → List Claim → Waiter
waiter t claims = record { address = t; seq = t; ticket = some t; claims = claims }

both_run : Coordinator
unfolding registered
both_run = grant (waiter 1 claims_b) (grant (waiter 0 claims_a) registered)

abbrev system : Coordinator → System
system c = record { coordinator = c; plans = 0 }

claims_a-IsDistinct : IsDistinct claims_a
unfolding lookup bytes_beq
claims_a-IsDistinct = (refl, (refl, tt))

claims_b-IsDistinct : IsDistinct claims_b
unfolding lookup bytes_beq
claims_b-IsDistinct = (refl, (refl, tt))

registered-Reach : Reach (start 2) (system registered)
unfolding registered register_batch new_coordinator
registered-Reach = next here (
    register batch (0 ∷ 1 ∷ 2 ∷ [])
      (claims_a-IsDistinct, (claims_b-IsDistinct, (claims_a-IsDistinct, tt))) refl)

both_run-Reach : Reach (start 2) (system both_run)
unfolding both_run register_batch new_coordinator try_grant grant bytes_beq claims_conflict
both_run-Reach =
    next
      (next registered-Reach
        (granted_call (waiter 0 claims_a) 0 refl (omega arith) refl refl claims_a-IsDistinct refl))
      (granted_call (waiter 1 claims_b) 1 refl (omega arith) refl refl claims_b-IsDistinct refl)

held_apart_example : ¬ Clash claims_a claims_b
unfolding both_run grant lookup
held_apart_example = held_apart 2 0 1 claims_a claims_b both_run-Reach (λ e. omega arith) refl refl

slots_bounded_example :
    (both_run.in_use ≡ length both_run.held + 0) × (length both_run.held + 0 ≤ 2)
slots_bounded_example = slots_bounded 2 both_run-Reach

no_overtaking_example :
    (has 0 both_run.pending ≡ false)
    × ((f : List Claim) × (announced both_run-Reach 0 ≡ some f)
        × (lookup 0 both_run.final ≡ some f)
        × IsClear f (has 0 both_run.released) claims_b)
unfolding both_run grant lookup claim_tickets classify_all new_coordinator
no_overtaking_example = no_overtaking 2 0 1 claims_b both_run-Reach (omega arith) refl

registered-IsOldest : IsOldest 0 registered
unfolding registered new_coordinator claim_tickets classify_all
registered-IsOldest = record {
  registered = omega arith;
  unreleased = refl;
  first = λ o h. elim h [ ];
}

oldest_progresses_example :
    (can_grant (waiter 0 claims_a) registered ≡ ltb registered.in_use 2)
    × (try_extend 0 claims_a registered ≢ none)
unfolding registered new_coordinator claim_tickets classify_all
oldest_progresses_example =
    oldest_progresses 2 0 (waiter 0 claims_a) registered-Reach registered-IsOldest refl (inr refl)

abbrev waiting : Coordinator
waiting = record registered { waiters = waiter 0 claims_a ∷ waiter 1 claims_b ∷ [] }

queue_not_stuck_example :
    (x : Waiter) × Mem x waiting.waiters × (try_grant x waiting ≡ some (grant x waiting))
unfolding registered new_coordinator claim_tickets classify_all can_grant claims_conflict
queue_not_stuck_example = queue_not_stuck waiting (waiter 0 claims_a) mem-cons_self refl

claims_conflict-Clash_example : (claims_conflict claims_a claims_b ≡ true) ↔ Clash claims_a claims_b
claims_conflict-Clash_example =
    claims_conflict-Clash claims_a claims_b claims_a-IsDistinct claims_b-IsDistinct

abbrev read_a : Claim
read_a = record { resource = codes "a"; access = access_read }

-- The weaker claim of the same resource is merged away.
normalized : normalize_claims (read_a ∷ claims_a) ≡ ok claims_a
unfolding normalize_claims bytes_beq
normalized = refl

normalize_claims-strongest_example :
    IsDistinct claims_a
    × ((r : List ℕ) → lookup r (entries claims_a) ≡ strongest r (read_a ∷ claims_a) none)
normalize_claims-strongest_example =
    normalize_claims-strongest (read_a ∷ claims_a) claims_a normalized

extended : extend_claims (read_a ∷ []) claims_a ≡ ok claims_a
unfolding extend_claims bytes_beq
extended = refl

extend_claims-keeps_example :
    (y : ℕ) × (lookup (codes "a") (entries claims_a) ≡ some y) × (access_read ≤ y)
unfolding lookup bytes_beq
extend_claims-keeps_example =
    extend_claims-keeps (read_a ∷ []) claims_a claims_a (codes "a") access_read extended refl
