-- ===== src/Tools/Quota/Shares.antt =====
-- The shares of the calls of a batch.
use serpe.Base.{
  AllOk, AllOk-bind, IsIn, ℕ, zero, suc, ◌+◌, ◌-◌, ◌*◌, ◌/◌, ◌%◌, ◌≤◌, ◌≡◌, refl, ltb, Option, none,
  some, List, [], ◌∷◌, ◌==◌, ℤ, nat_eq, arith, length, All, Option-cases, Bool-cases, inl, inr,
  subst,
}
use native.Mathlib.Nat.{mod-eq-sub-mul-div, mul-div-le, le-div_iff_mul-le}
use serpe.Tools.Limits.{OutputLimits}
use serpe.Tools.Quota.{
  Result, ok, err, per_call_error_reserve, mul64, apply_options, tighten, check_reserve,
  apply_start_options, call_quotas, reserve_quotas, allocate_call_quotas, start_quotas,
}

-- What the calls of a batch may put out together.
abbrev pub total_framed : List (OutputLimits ℕ) → ℕ
total_framed [] = 0
total_framed (q ∷ qs) = q.max_framed_bytes + total_framed qs

-- A share keeps room for an error of its call, under the limit of one output.
abbrev pub IsShare : ℕ → OutputLimits ℕ → Type 0
IsShare most q = IsIn per_call_error_reserve most q.max_framed_bytes

length-call_quotas :
    (batch : OutputLimits ℕ) (n i left : ℕ) → length (call_quotas batch n i left) ≡ left
unfolding call_quotas
length-call_quotas batch n i zero = refl
length-call_quotas batch n i (suc left) = ground (arith, length-call_quotas batch n (suc i) left)

total-call_quotas :
    (batch : OutputLimits ℕ) (n i left : ℕ)
    → let b = batch.max_batch_framed_bytes in
      total_framed (call_quotas batch n i left) ≤ left * (b / n) + (b % n - i)
unfolding call_quotas
total-call_quotas batch n i zero = omega arith
total-call_quotas batch n i (suc left) = ground (arith, total-call_quotas batch n (suc i) left)

call_quotas-IsShare :
    (batch : OutputLimits ℕ) (n i left : ℕ)
    → per_call_error_reserve ≤ batch.max_framed_bytes
    → per_call_error_reserve ≤ batch.max_batch_framed_bytes / n
    → All (IsShare batch.max_framed_bytes) (call_quotas batch n i left)
unfolding call_quotas
call_quotas-IsShare batch n i zero one all = tt
call_quotas-IsShare batch n i (suc left) one all =
    (ground arith, call_quotas-IsShare batch n (suc i) left one all)

mul64_inv : (a b c : ℕ) → mul64 a b ≡ some c → c ≡ a * b
unfolding mul64
mul64_inv a b c h = ground arith

-- Whole shares and the remainder make up the quotient's dividend.
shares_whole : (b n : ℕ) → n * (b / n) + (b % n - 0) ≤ b
shares_whole b n = omega (arith, mod-eq-sub-mul-div b n, mul-div-le b n)

reserve_each : (b n : ℕ) → 1 ≤ n → n * per_call_error_reserve ≤ b → per_call_error_reserve ≤ b / n
reserve_each b n one le = (le-div_iff_mul-le (omega arith)).1 (omega arith)

abbrev IsAllocated : OutputLimits ℕ → ℕ → List (OutputLimits ℕ) → Type 0
IsAllocated base n qs =
    (length qs ≡ n)
    × All (IsShare base.max_framed_bytes) qs
    × (total_framed qs ≤ base.max_batch_framed_bytes)

AllOk-Unit {ℓ} : {A : Type ℓ} (r : Result A) → AllOk (λ _. Unit {0}) r
AllOk-Unit (ok m) = tt
AllOk-Unit (err e) = tt

reserve_quotas-AllOk :
    (batch : OutputLimits ℕ) (n : ℕ)
    → 1 ≤ n
    → per_call_error_reserve ≤ batch.max_framed_bytes
    → AllOk (IsAllocated batch n) (reserve_quotas batch n)
unfolding reserve_quotas
reserve_quotas-AllOk batch n one room = elim (Option-cases (mul64 n per_call_error_reserve)) [
  | inl overflow ↦ rw (overflow, AllOk) tt
  | inr (need, known) ↦
      rw (known, AllOk)
        (elim (Bool-cases (ltb batch.max_batch_framed_bytes need)) [
          | inl small ↦ rw small tt
          | inr fits ↦
              let exact = mul64_inv n per_call_error_reserve need known in
              rw fits (
                length-call_quotas batch n 0 n,
                call_quotas-IsShare batch n 0 n room
                    (reserve_each batch.max_batch_framed_bytes n one (ground arith)),
                omega (
                  arith,
                  total-call_quotas batch n 0 n,
                  shares_whole batch.max_batch_framed_bytes n,
                ),
              )
        ])
]

allocate_call_quotas-AllOk :
    (batch : OutputLimits ℕ) (n : ℕ)
    → per_call_error_reserve ≤ batch.max_framed_bytes
    → AllOk (IsAllocated batch n) (allocate_call_quotas batch n)
unfolding allocate_call_quotas
allocate_call_quotas-AllOk batch n room = elim (Bool-cases (n == 0)) [
  | inl empty ↦ rw empty tt
  | inr full ↦ rw full (reserve_quotas-AllOk batch n (ground arith) room)
]

-- Limits that are the executor's, or tighter for the whole batch.
abbrev IsTightened : OutputLimits ℕ → OutputLimits ℕ → Type 0
IsTightened base l =
    (l.max_framed_bytes ≡ base.max_framed_bytes)
    × (l.max_batch_framed_bytes ≤ base.max_batch_framed_bytes)

tighten-AllOk : (m : Option ℕ) (base : OutputLimits ℕ) → AllOk (IsTightened base) (tighten m base)
unfolding tighten
tighten-AllOk none base = (refl, omega arith)
tighten-AllOk (some n) base = ground arith

check_reserve-AllOk :
    (calls : ℕ) (base l : OutputLimits ℕ)
    → IsTightened base l
    → AllOk (IsTightened base) (check_reserve calls l)
unfolding check_reserve
check_reserve-AllOk calls base l t = elim (Option-cases (mul64 calls per_call_error_reserve)) [
  | inl overflow ↦ rw (overflow, AllOk) tt
  | inr (need, known) ↦
      rw (known, AllOk)
        (elim (Bool-cases (ltb l.max_batch_framed_bytes need)) [
          | inl small ↦ rw small tt
          | inr fits ↦ rw fits t
        ])
]

apply_start_options-AllOk :
    (opts : List (Option ℤ)) (base : OutputLimits ℕ) (calls : ℕ)
    → AllOk (IsTightened base) (apply_start_options opts base calls)
unfolding apply_start_options
apply_start_options-AllOk opts base calls =
    AllOk-bind (λ _. Unit) (IsTightened base) (apply_options opts none) _
      (AllOk-Unit (apply_options opts none))
      (λ m _.
        AllOk-bind (IsTightened base) (IsTightened base) (tighten m base) _ (tighten-AllOk m base)
          (check_reserve-AllOk calls base))

start_quotas-AllOk :
    (opts : List (Option ℤ)) (base : OutputLimits ℕ) (calls : ℕ)
    → per_call_error_reserve ≤ base.max_framed_bytes
    → AllOk (IsAllocated base calls) (start_quotas opts base calls)
unfolding start_quotas
start_quotas-AllOk opts base calls room =
    AllOk-bind (IsTightened base) (IsAllocated base calls) (apply_start_options opts base calls) _
      (apply_start_options-AllOk opts base calls)
      (λ l t.
        loosen l t (allocate_call_quotas l calls)
          (allocate_call_quotas-AllOk l calls (omega (arith, t.0))))
  where
    loosen :
        (l : OutputLimits ℕ)
        → IsTightened base l
        → (r : Result (List (OutputLimits ℕ))) → AllOk (IsAllocated l calls) r
        → AllOk (IsAllocated base calls) r
    loosen l t (ok qs) (n, each, all) =
        (n, subst (λ most. All (IsShare most) qs) t.0 each, omega (arith, t.1))
    loosen l t (err e) h = tt

-- Where one output may be as large as the reserve for an error, the calls of a started batch get a
-- share each: enough for an error of the call, at most what one output may have, and together at most
-- what the executor allows a batch, whatever the options.
pub start_quotas-All :
    (opts : List (Option ℤ)) (base : OutputLimits ℕ) (calls : ℕ) (qs : List (OutputLimits ℕ))
    → per_call_error_reserve ≤ base.max_framed_bytes
    → start_quotas opts base calls ≡ ok qs
    → (length qs ≡ calls)
      × All (IsShare base.max_framed_bytes) qs
      × (total_framed qs ≤ base.max_batch_framed_bytes)
start_quotas-All opts base calls qs room h =
    subst (AllOk (IsAllocated base calls)) h (start_quotas-AllOk opts base calls room)

abbrev HasQuotas : ℕ → OutputLimits ℕ → Type 0
HasQuotas calls l = (qs : List (OutputLimits ℕ)) × (reserve_quotas l calls ≡ ok qs)

check_reserve-HasQuotas :
    (calls : ℕ) (l : OutputLimits ℕ) → AllOk (HasQuotas calls) (check_reserve calls l)
unfolding check_reserve reserve_quotas
check_reserve-HasQuotas calls l = elim (Option-cases (mul64 calls per_call_error_reserve)) [
  | inl overflow ↦ rw (overflow, AllOk) tt
  | inr (need, known) ↦
      rw (known, AllOk)
        (elim (Bool-cases (ltb l.max_batch_framed_bytes need)) [
          | inl small ↦ rw small tt
          | inr fits ↦ rw fits (call_quotas l calls 0 calls, rw (known, fits, reserve_quotas))
        ])
]

apply_start_options-HasQuotas :
    (opts : List (Option ℤ)) (base : OutputLimits ℕ) (calls : ℕ)
    → AllOk (HasQuotas calls) (apply_start_options opts base calls)
unfolding apply_start_options
apply_start_options-HasQuotas opts base calls =
    AllOk-bind (λ _. Unit) (HasQuotas calls) (apply_options opts none) _
      (AllOk-Unit (apply_options opts none))
      (λ m _.
        AllOk-bind (λ _. Unit) (HasQuotas calls) (tighten m base) _ (AllOk-Unit (tighten m base))
          (λ l _. check_reserve-HasQuotas calls l))

-- Limits that passed the options of a batch are never refused by the allocation: a batch with a call
-- gets its quotas.
pub allocate_call_quotas_complete :
    (opts : List (Option ℤ)) (base l : OutputLimits ℕ) (calls : ℕ)
    → 1 ≤ calls
    → apply_start_options opts base calls ≡ ok l
    → (qs : List (OutputLimits ℕ)) × (allocate_call_quotas l calls ≡ ok qs)
unfolding allocate_call_quotas
allocate_call_quotas_complete opts base l calls one h =
    let (qs, found) =
      subst (AllOk (HasQuotas calls)) h (apply_start_options-HasQuotas opts base calls) in
    (qs, ground (arith, found))
