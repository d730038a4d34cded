-- ===== src/Tools/Coordinator/Invariant.antt =====
-- What holds of the coordinator between two locked regions. `plans` counts the permits that
-- `callPlan` holds, which take a slot and claim nothing.
use serpe.Base.{
  ℕ, zero, suc, ◌+◌, ◌-◌, ◌≤◌, ◌<◌, ◌≡◌, ◌≢◌, ◌⊎◌, inl, inr, true, false, some, List, Assoc, lookup,
  has, IsUnique, nat_eq, length, arith, Bool-cases,
}
use serpe.Tools.Claims.{Claim, claims_conflict, IsDistinct}
use serpe.Tools.Coordinator.{Coordinator, advance, advance_frontier}

pub record Inv (plans : ℕ) (c : Coordinator) : Type 0 where
  pub capacity : c.in_use ≤ c.parallel
  pub accounted : c.in_use ≡ length c.held + plans
  pub frontier_le : c.frontier ≤ c.next
  pub pending_ahead : (t : ℕ) → has t c.pending ≡ true → (c.frontier ≤ t) × (t < c.next)
  pub pending_unsettled : (t : ℕ) → has t c.released ≡ true → has t c.pending ≡ false
  pub released_known : (t : ℕ) → has t c.released ≡ true → t < c.next
  pub held_known :
      (t : ℕ) (h : List Claim)
      → lookup t c.held ≡ some h
      → (t ≤ c.frontier) × (t < c.next) × (has t c.released ≡ false) × IsDistinct h
  pub final_known :
      (t : ℕ) (f : List Claim) → lookup t c.final ≡ some f → (t < c.next) × IsDistinct f
  pub exclusive :
      (s t : ℕ) (a b : List Claim)
      → s ≢ t
      → lookup s c.held ≡ some a
      → lookup t c.held ≡ some b
      → claims_conflict a b ≡ false
  pub ordered :
      (o t : ℕ) (f h : List Claim)
      → o < t
      → lookup o c.final ≡ some f
      → has o c.released ≡ false
      → lookup t c.held ≡ some h
      → claims_conflict f h ≡ false
  pub unique_held : IsUnique c.held
  pub unique_final : IsUnique c.final

-- The frontier stands at the end of the tickets or at one whose claims are not known yet.
abbrev pub IsTight : Coordinator → Type 0
IsTight c = (c.frontier ≡ c.next) ⊎ (has c.frontier c.pending ≡ true)

advance_le :
    (fuel : ℕ) (p : Assoc ℕ (Unit {0})) (f : ℕ)
    → (f ≤ advance fuel p f) × (advance fuel p f ≤ f + fuel)
unfolding advance
advance_le zero p f = omega arith
advance_le (suc fuel) p f = ground (arith, advance_le fuel p (suc f))

advance_stops :
    (fuel : ℕ) (p : Assoc ℕ (Unit {0})) (f t : ℕ) → f ≤ t → has t p ≡ true → advance fuel p f ≤ t
unfolding advance
advance_stops zero p f t l h = l
advance_stops (suc fuel) p f t l h = elim (Bool-cases (has f p)) [
  | inl stop ↦ rw stop l
  | inr go ↦ rw go (advance_stops fuel p (suc f) t (ground arith) h)
]

advance_tight :
    (fuel : ℕ) (p : Assoc ℕ (Unit {0})) (f : ℕ)
    → (advance fuel p f ≡ f + fuel) ⊎ (has (advance fuel p f) p ≡ true)
unfolding advance
advance_tight zero p f = inl (omega arith)
advance_tight (suc fuel) p f = elim (Bool-cases (has f p)) [
  | inl stop ↦ rw stop (inr stop)
  | inr go ↦ rw go (ground (arith, advance_tight fuel p (suc f)))
]

pub advance_frontier-Inv : {n : ℕ} {c : Coordinator} → Inv n c → Inv n (advance_frontier c)
unfolding advance_frontier
advance_frontier-Inv {n} {c} v =
    let up = advance_le (c.next - c.frontier) c.pending c.frontier in
    record {
      capacity = v.capacity;
      accounted = v.accounted;
      frontier_le = omega (arith, v.frontier_le);
      pending_ahead = λ t h. (
        advance_stops (c.next - c.frontier) c.pending c.frontier t (v.pending_ahead t h).0 h,
        (v.pending_ahead t h).1,
      );
      pending_unsettled = v.pending_unsettled;
      released_known = v.released_known;
      held_known = λ t h p. let (a, b, r, d) = v.held_known t h p in (omega arith, b, r, d);
      final_known = v.final_known;
      exclusive = v.exclusive;
      ordered = v.ordered;
      unique_held = v.unique_held;
      unique_final = v.unique_final;
    }

pub advance_frontier-IsTight : {n : ℕ} {c : Coordinator} → Inv n c → IsTight (advance_frontier c)
unfolding advance_frontier
advance_frontier-IsTight {c} v = elim (advance_tight (c.next - c.frontier) c.pending c.frontier) [
  | inl done ↦ inl (omega (arith, v.frontier_le))
  | inr stop ↦ inr stop
]
