-- ===== src/Tools/Coordinator/Safety.antt =====
-- What the coordinator promises to the calls of all batches, whatever the interleaving.
use serpe.Base.{
  ℕ, ◌+◌, ◌≤◌, ◌<◌, ◌≡◌, ◌≢◌, refl, Bool, true, false, some, List, lookup, has, length, nat_eq,
  arith, Bool-cases, inl, inr, sym, ◌∙◌, ◌||◌, Option-cases,
}
use serpe.Tools.Claims.{Claim, IsDistinct}
use serpe.Tools.Claims.Conflict.{Clash, claims_conflict-Clash}
use serpe.Tools.Coordinator.{Coordinator}
use serpe.Tools.Coordinator.Invariant.{Inv}
use serpe.Tools.Coordinator.Recorded.{announced, announced-final, Reach-AreKnown}
use serpe.Tools.Coordinator.Run.{System, Reach, start, Reach-SystemInv}

-- In every reachable state, two different calls that hold claims share no resource that one of them
-- writes.
pub held_apart :
    (parallel : ℕ) {s : System} (i j : ℕ) (a b : List Claim)
    → Reach (start parallel) s
    → i ≢ j
    → lookup i s.coordinator.held ≡ some a
    → lookup j s.coordinator.held ≡ some b
    → ¬ Clash a b
held_apart parallel i j a b r ne p q clash =
    let v = (Reach-SystemInv parallel r).inv in
    let da = (v.held_known i a p).3 in
    let db = (v.held_known j b q).3 in
    let free = v.exclusive i j a b ne p q in cc (free, (claims_conflict-Clash a b da db).1 clash)

-- In every reachable state the slots in use are the calls that hold claims and the running plans, and
-- there are never more of them than the coordinator was made for.
pub slots_bounded :
    (parallel : ℕ) {s : System}
    → Reach (start parallel) s
    → (s.coordinator.in_use ≡ length s.coordinator.held + s.plans)
      × (length s.coordinator.held + s.plans ≤ parallel)
slots_bounded parallel r =
    let i = Reach-SystemInv parallel r in
    (i.inv.accounted, omega (arith, i.inv.accounted, i.inv.capacity, i.slots))

-- Where an earlier call is unreleased, its claims `f` and the holder's share no resource that one of
-- them writes.
abbrev pub IsClear : List Claim → Bool → List Claim → Type 0
IsClear f true h = Unit
IsClear f false h = ¬ Clash f h

-- A call that holds claims has overtaken no earlier call that it could conflict with: every earlier call
-- has announced its complete claims, at its registration, by discovering them or with none by its
-- release, and the coordinator has recorded exactly these; and those of an earlier call that is not
-- released share no resource with the holder's that one of them writes.
pub no_overtaking :
    (parallel : ℕ) {s : System} (o t : ℕ) (h : List Claim) (r : Reach (start parallel) s)
    → o < t
    → lookup t s.coordinator.held ≡ some h
    → (has o s.coordinator.pending ≡ false)
      × ((f : List Claim) × (announced r o ≡ some f)
          × (lookup o s.coordinator.final ≡ some f)
          × IsClear f (has o s.coordinator.released) h)
no_overtaking parallel {s} o t h r lt p =
    let (at_most, below, _, dh) = v.held_known t h p in
    let open_ = settled at_most v.pending_ahead in
    let (f, recorded) = is_recorded open_ (Reach-AreKnown parallel r o (omega arith)) in
    (
      open_,
      (
        f,
        sym (announced-final parallel r o) ∙ recorded,
        recorded,
        clear dh f (has o c.released) recorded refl,
      ),
    )
  where
    c : Coordinator
    c = s.coordinator

    v : Inv s.plans c
    v = (Reach-SystemInv parallel r).inv

    clear :
        IsDistinct h
        → (f : List Claim) (b : Bool) → lookup o c.final ≡ some f
        → has o c.released ≡ b
        → IsClear f b h
    clear dh f true q open_ = tt
    clear dh f false q open_ = λ clash. cc (
      v.ordered o t f h lt q open_ p,
      (claims_conflict-Clash f h (v.final_known o f q).1 dh).1 clash,
    )

    settled :
        t ≤ c.frontier
        → ((t : ℕ) → has t c.pending ≡ true → (c.frontier ≤ t) × (t < c.next))
        → has o c.pending ≡ false
    settled le ahead = elim (Bool-cases (has o c.pending)) [
      | inl waiting ↦ absurd (omega (arith, (ahead o waiting).0))
      | inr done ↦ done
    ]

    is_recorded :
        has o c.pending ≡ false
        → (has o c.pending || has o c.final) ≡ true
        → (f : List Claim) × (lookup o c.final ≡ some f)
    is_recorded open_ known = elim (Option-cases (lookup o c.final)) [
      | inl missing ↦ absurd (ground (arith, open_, known, missing))
      | inr found ↦ found
    ]
