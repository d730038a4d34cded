-- ===== src/Tools/Coordinator/Register.antt =====
-- `registerBatch` keeps the invariant.
use serpe.Base.{
  ℕ, suc, ◌+◌, ◌≤◌, ◌≡◌, refl, subst, ap, ◌∙◌, Bool, ◌||◌, List, [], ◌∷◌, nat_eq, length, arith,
  ◌==◌, All,
}
use serpe.Tools.Claims.{IsDistinct}
use serpe.Tools.Coordinator.{
  Coordinator, PreparedCall, ok, classify, classify_all, claim_tickets, register_batch, max_uint64,
}
use serpe.Tools.Coordinator.Invariant.{Inv, IsTight, advance_frontier-Inv, advance_frontier-IsTight}
use serpe.Tools.Coordinator.Classify.{Fresh, classify-Inv, Fresh-classify}

extend_next-Inv :
    {n : ℕ} {c : Coordinator} (k : ℕ) (e : Bool)
    → Inv n c
    → Inv n (record c { next = c.next + k; exhausted = e })
extend_next-Inv {n} {c} k e v = record {
  capacity = v.capacity;
  accounted = v.accounted;
  frontier_le = omega (arith, v.frontier_le);
  pending_ahead = λ s h. let (a, b) = v.pending_ahead s h in (a, omega arith);
  pending_unsettled = v.pending_unsettled;
  released_known = λ t h. let a = v.released_known t h in omega arith;
  held_known = λ s h p. let (a, b, r, d) = v.held_known s h p in (a, omega arith, r, d);
  final_known = λ s f p. let (a, d) = v.final_known s f p in (omega arith, d);
  exclusive = v.exclusive;
  ordered = v.ordered;
  unique_held = v.unique_held;
  unique_final = v.unique_final;
}

classify-next : (t : ℕ) (call : PreparedCall) (c : Coordinator) → (classify t call c).next ≡ c.next
unfolding classify
classify-next t call c = ground arith

classify_all-Inv :
    {n : ℕ} (t : ℕ) (calls : List PreparedCall) (c : Coordinator)
    → Inv n c
    → Fresh t c
    → t + length calls ≤ c.next
    → All (λ call. IsDistinct (PreparedCall.static call)) calls
    → Inv n (classify_all t calls c)
unfolding classify_all
classify_all-Inv t [] c v new le d = v
classify_all-Inv t (call ∷ calls) c v new le d =
    classify_all-Inv (suc t) calls (classify t call c) (classify-Inv t call v new (omega arith) d.0)
      (Fresh-classify t call new) (rw classify-next (omega arith)) d.1

classify-renumber :
    (t k : ℕ) (e : Bool) (call : PreparedCall) (c : Coordinator)
    → classify t call (record c { next = k; exhausted = e })
      ≡ record (classify t call c) { next = k; exhausted = e }
unfolding classify
classify-renumber t k e call c = ground arith

classify_all-renumber :
    (t k : ℕ) (e : Bool) (calls : List PreparedCall) (c : Coordinator)
    → classify_all t calls (record c { next = k; exhausted = e })
      ≡ record (classify_all t calls c) { next = k; exhausted = e }
unfolding classify_all
classify_all-renumber t k e [] c = refl
classify_all-renumber t k e (call ∷ calls) c =
    ap (λ x. classify_all (suc t) calls x) (classify-renumber t k e call c)
    ∙ classify_all-renumber (suc t) k e calls (classify t call c)

pub classify_all-next :
    (t : ℕ) (calls : List PreparedCall) (c : Coordinator) → (classify_all t calls c).next ≡ c.next
unfolding classify_all
classify_all-next t [] c = refl
classify_all-next t (call ∷ calls) c =
    classify_all-next (suc t) calls (classify t call c) ∙ classify-next t call c

Inv-Fresh :
    {n : ℕ} {c : Coordinator} (k : ℕ) (e : Bool)
    → Inv n c
    → Fresh c.next (record c { next = k; exhausted = e })
Inv-Fresh k e v = record {
  fresh_frontier = v.frontier_le;
  fresh_pending = λ s h. (v.pending_ahead s h).1;
  fresh_released = v.released_known;
  fresh_held = λ s h p. (v.held_known s h p).1;
}

registered-Inv :
    {n : ℕ} {c : Coordinator} (calls : List PreparedCall) (e : Bool)
    → Inv n c
    → All (λ call. IsDistinct (PreparedCall.static call)) calls
    → Inv n (record (classify_all c.next calls c) {
      next = (classify_all c.next calls c).next + length calls;
      exhausted = e;
    })
registered-Inv {n} {c} calls e v dc = rw classify_all-next (
    subst (λ x. Inv n x) (classify_all-renumber c.next (c.next + length calls) e calls c)
      (classify_all-Inv c.next calls _ (extend_next-Inv (length calls) e v)
        (Inv-Fresh (c.next + length calls) e v) (omega arith) dc))

claim_tickets-Inv :
    {n : ℕ} {c : Coordinator} (calls : List PreparedCall)
    → Inv n c
    → All (λ call. IsDistinct (PreparedCall.static call)) calls
    → Inv n (claim_tickets (length calls) (classify_all c.next calls c))
unfolding claim_tickets
claim_tickets-Inv calls v dc = advance_frontier-Inv (registered-Inv calls _ v dc)

pub register_batch-Inv :
    {n : ℕ} {c d : Coordinator} (calls : List PreparedCall) {ts : List ℕ}
    → Inv n c
    → All (λ call. IsDistinct (PreparedCall.static call)) calls
    → register_batch calls c ≡ ok (ts, d)
    → Inv n d
unfolding register_batch
register_batch-Inv {n} calls v dc h =
    subst (λ x. Inv n x) (ground arith) (claim_tickets-Inv calls v dc)

claim_tickets-IsTight :
    {n : ℕ} {c : Coordinator} (calls : List PreparedCall)
    → Inv n c
    → All (λ call. IsDistinct (PreparedCall.static call)) calls
    → IsTight (claim_tickets (length calls) (classify_all c.next calls c))
unfolding claim_tickets
claim_tickets-IsTight {c} calls v dc =
    let d = classify_all c.next calls c in
    advance_frontier-IsTight
      (registered-Inv calls (d.exhausted || d.next + length calls == max_uint64) v dc)

pub register_batch-IsTight :
    {n : ℕ} {c d : Coordinator} (calls : List PreparedCall) {ts : List ℕ}
    → Inv n c
    → All (λ call. IsDistinct (PreparedCall.static call)) calls
    → register_batch calls c ≡ ok (ts, d)
    → IsTight d
unfolding register_batch
register_batch-IsTight {c} {d} calls v dc h =
    subst IsTight {x = claim_tickets (length calls) (classify_all c.next calls c)} {y = d}
      (ground arith) (claim_tickets-IsTight calls v dc)
