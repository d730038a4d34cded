-- ===== src/Tools/Coordinator/Progress.antt =====
-- Progress in core/tools/coordinator.go: the oldest call that is not released, and the waiters of the
-- queue.
use serpe.Base.{
  ℕ, ◌≤◌, ◌<◌, ◌≡◌, ◌≢◌, ◌⊎◌, inl, inr, ◌∙◌, sym, subst, true, false, Option, some, none, List, [],
  ◌∷◌, lookup, has, nat_eq, arith, Bool-cases, Option-cases, all_entries-intro, ◌==◌, leb, ltb,
  if◌then◌else◌,
}
use mathlib.Core.List.{Mem, Mem-prop, not-mem-nil, mem-cons}
use mathlib.Core.Logic.Or
use serpe.Tools.Claims.{Claim, claims_conflict, IsDistinct}
use serpe.Tools.Claims.Conflict.{claims_conflict_comm}
use serpe.Tools.Coordinator.{
  Coordinator, Waiter, claims_free_except, free_of_held, free_of_earlier, can_grant, grant,
  try_grant, try_extend, earlier_grantable,
}
use serpe.Tools.Coordinator.Invariant.{Inv, IsTight}
use serpe.Tools.Coordinator.Run.{System, Reach, start, Reach-SystemInv}

-- The oldest ticket that is not released.
pub record IsOldest (t : ℕ) (c : Coordinator) : Type 0 where
  pub registered : t < c.next
  pub unreleased : has t c.released ≡ false
  pub first : (o : ℕ) → o < t → has o c.released ≡ true

-- The claims are the call's complete ones, or are still to be discovered.
abbrev pub IsAsking : ℕ → List Claim → Coordinator → Type 0
IsAsking t cs c = (has t c.pending ≡ true) ⊎ (lookup t c.final ≡ some cs)

oldest_at_frontier :
    {n : ℕ} (c : Coordinator) (t : ℕ) → Inv n c → IsTight c → IsOldest t c → t ≤ c.frontier
oldest_at_frontier c t v (inl e) old = omega (arith, old.registered)
oldest_at_frontier c t v (inr stop) old = elim (Bool-cases (ltb c.frontier t)) [
  | inl before ↦
      absurd (cc (stop, v.pending_unsettled c.frontier (old.first c.frontier (ground arith))))
  | inr after ↦ ground arith
]

oldest_free_of_held :
    {n : ℕ} (c : Coordinator) (t : ℕ) (cs : List Claim)
    → Inv n c
    → IsOldest t c
    → IsAsking t cs c
    → (s : ℕ) (h : List Claim) → lookup s c.held ≡ some h
    → free_of_held t cs s h ≡ true
unfolding free_of_held
oldest_free_of_held c t cs v old ask s h p = elim (Bool-cases (s == t)) [
  | inl self ↦ rw self
  | inr other ↦
      let (le, _, open_, dh) = v.held_known s h p in
      rw other (ground (arith, no_clash le dh (later open_ other) ask))
]
  where
    later : has s c.released ≡ false → (s == t) ≡ false → t < s
    later open_ other = elim (Bool-cases (ltb s t)) [
      | inl before ↦ absurd (cc (open_, old.first s (ground arith)))
      | inr after ↦ ground arith
    ]

    no_clash :
        s ≤ c.frontier → IsDistinct h → t < s → IsAsking t cs c → claims_conflict h cs ≡ false
    no_clash le dh lt (inl waiting) = absurd (omega (arith, (v.pending_ahead t waiting).0))
    no_clash le dh lt (inr known) =
        claims_conflict_comm h cs dh (v.final_known t cs known).1
        ∙ v.ordered t s cs h lt known old.unreleased p

oldest_free :
    {n : ℕ} (c : Coordinator) (t : ℕ) (cs : List Claim)
    → Inv n c
    → IsOldest t c
    → IsAsking t cs c
    → claims_free_except t cs c ≡ true
unfolding claims_free_except free_of_earlier
oldest_free c t cs v old ask = ground (
  arith,
  all_entries-intro (free_of_held t cs) c.held v.unique_held (oldest_free_of_held c t cs v old ask),
  all_entries-intro (free_of_earlier t cs c.released) c.final v.unique_final earlier,
)
  where
    earlier :
        (o : ℕ) (f : List Claim)
        → lookup o c.final ≡ some f
        → free_of_earlier t cs c.released o f ≡ true
    earlier o f p = elim (Bool-cases (leb t o)) [
      | inl after ↦ rw after
      | inr before ↦ ground (arith, old.first o (ground arith))
    ]

-- In every reachable state the oldest call that is not released is never kept waiting by claims: it
-- can be granted as soon as a slot is free, and its extension to its complete claims succeeds.
pub oldest_progresses :
    (parallel : ℕ) {s : System} (t : ℕ) (w : Waiter)
    → Reach (start parallel) s
    → IsOldest t s.coordinator
    → w.ticket ≡ some t
    → IsAsking t w.claims s.coordinator
    → (can_grant w s.coordinator ≡ ltb s.coordinator.in_use parallel)
      × (try_extend t w.claims s.coordinator ≢ none)
unfolding can_grant try_extend
oldest_progresses parallel {s} t w r old e ask =
    let i = Reach-SystemInv parallel r in
    let at = oldest_at_frontier s.coordinator t i.inv i.tight old in
    let free = oldest_free s.coordinator t w.claims i.inv old ask in
    (ground (arith, i.slots), ground arith)

-- The first waiter of a queue that can be granted.
first_grantable : Coordinator → List Waiter → Option Waiter
first_grantable c [] = none
first_grantable c (w ∷ ws) = if can_grant w c then some w else first_grantable c ws

earlier_of_first :
    (c : Coordinator) (ws : List Waiter) (w : Waiter)
    → first_grantable c ws ≡ some w
    → (can_grant w c ≡ true) × (earlier_grantable w c ws ≡ false)
unfolding first_grantable earlier_grantable
earlier_of_first c [] w h = absurd (cc)
earlier_of_first c (x ∷ ws) w h = elim (Bool-cases (can_grant x c)) [
  | inl ready ↦
      subst (λ y. (can_grant y c ≡ true) × (earlier_grantable y c (x ∷ ws) ≡ false))
        (same_waiter ready) (ready, own_address)
  | inr blocked ↦ rw blocked (ground (arith, earlier_of_first c ws w))
]
  where
    same_waiter : can_grant x c ≡ true → x ≡ w
    same_waiter ready = ground arith

    own_address : earlier_grantable x c (x ∷ ws) ≡ false
    own_address = ground arith

first_grantable_lem :
    (c : Coordinator) (ws : List Waiter) (w : Waiter)
    → Mem w ws
    → can_grant w c ≡ true
    → first_grantable c ws ≢ none
unfolding first_grantable
first_grantable_lem c [] w m h = absurd (not-mem-nil m)
first_grantable_lem c (x ∷ ws) w m h = elim (Bool-cases (can_grant x c)) [
  | inl ready ↦ rw ready (λ e. cc)
  | inr blocked ↦ rw blocked (
      first_grantable_lem c ws w
        (Or.elim Mem-prop (mem-cons.0 m) (λ e. absurd (not_both e blocked)) (λ r. r)) h)
]
  where
    not_both : w ≡ x → can_grant x c ≡ false → ⊥
    not_both e blocked = cc (h, blocked, e)

first_grantable-Mem :
    (c : Coordinator) (ws : List Waiter) (w : Waiter) → first_grantable c ws ≡ some w → Mem w ws
unfolding first_grantable
first_grantable-Mem c [] w h = absurd (cc)
first_grantable-Mem c (x ∷ ws) w h = elim (Bool-cases (can_grant x c)) [
  | inl ready ↦ mem-cons.1 (Or.inl (sym (same_waiter ready)))
  | inr blocked ↦ mem-cons.1 (Or.inr (first_grantable-Mem c ws w (rw blocked at h)))
]
  where
    same_waiter : can_grant x c ≡ true → x ≡ w
    same_waiter ready = ground arith

-- When some waiter in the queue can be granted, the queue has a waiter whose next round is granted.
pub queue_not_stuck :
    (c : Coordinator) (w : Waiter)
    → Mem w c.waiters
    → can_grant w c ≡ true
    → (x : Waiter) × Mem x c.waiters × (try_grant x c ≡ some (grant x c))
unfolding try_grant
queue_not_stuck c w m h = elim (Option-cases (first_grantable c c.waiters)) [
  | inl nobody ↦ absurd (first_grantable_lem c c.waiters w m h nobody)
  | inr (x, first) ↦ (
    x,
    first_grantable-Mem c c.waiters x first,
    ground (arith, earlier_of_first c c.waiters x first),
  )
]
