-- ===== src/Tools/Quota.antt =====
-- `applyStartOptions` of core/tools/input.go and `allocateCallQuotas` of core/tools/limits.go: what a
-- batch may put out, and the share of each call. The fields of the limits are normalized.
pub mod Shares
pub use serpe.Base.{ok, err, ◌>>=◌}
use serpe.Base.{
  Fallible, max_int64, ℕ, zero, suc, ◌+◌, ◌-◌, ◌*◌, ◌/◌, ◌%◌, ◌^◌, ltb, Bool, true, false, ◌||◌,
  Option, none, some, List, [], ◌∷◌, ◌==◌, if◌then◌else◌, ℤ, pos, negsuc, nat_eq,
}
use serpe.Tools.Limits.{OutputLimits}

abbrev pub per_call_error_reserve : ℕ
per_call_error_reserve = 1024

pub data QuotaError : Type 0 where
  nil_option repeated_option option_not_positive raises_limit reserve_too_small : QuotaError
  empty_batch reserve_overflow : QuotaError

abbrev pub Result {ℓ} : Type ℓ → Type ℓ
Result A = Fallible QuotaError A

-- `mul64` on numbers that are not negative.
unfoldable pub mul64 : ℕ → ℕ → Option ℕ
mul64 a b =
    if a == 0 || b == 0 then some 0 else if ltb (max_int64 / b) a then none else some (a * b)

-- The loop over the options, where `none` is a nil one, and `maxBatchFramedOption.apply`.
unfoldable pub apply_options : List (Option ℤ) → Option ℕ → Result (Option ℕ)
apply_options [] max_batch_framed = ok max_batch_framed
apply_options (none ∷ opts) max_batch_framed = err nil_option
apply_options (some v ∷ opts) (some _) = err repeated_option
apply_options (some (negsuc n) ∷ opts) none = err option_not_positive
apply_options (some (pos n) ∷ opts) none =
    let rest = apply_options opts (some n) in if n == 0 then err option_not_positive else rest

unfoldable pub tighten : Option ℕ → OutputLimits ℕ → Result (OutputLimits ℕ)
tighten none base = ok base
tighten (some n) base =
    if ltb base.max_batch_framed_bytes n
    then err raises_limit
    else ok (record base { max_batch_framed_bytes = n })

-- The test at the end of `applyStartOptions`.
unfoldable pub check_reserve : ℕ → OutputLimits ℕ → Result (OutputLimits ℕ)
unfolding mul64
check_reserve calls limits = elim (mul64 calls per_call_error_reserve) [
  | none ↦ err reserve_too_small
  | some need ↦ if ltb limits.max_batch_framed_bytes need then err reserve_too_small else ok limits
]

unfoldable pub apply_start_options : List (Option ℤ) → OutputLimits ℕ → ℕ → Result (OutputLimits ℕ)
unfolding apply_options tighten check_reserve
apply_start_options opts base calls = apply_options opts none >>= λ max_batch_framed.
    tighten max_batch_framed base >>= λ limits. check_reserve calls limits

unfoldable pub share_of : OutputLimits ℕ → ℕ → ℕ → ℕ
share_of batch n i =
    let base = batch.max_batch_framed_bytes / n in
    let share = if ltb i (batch.max_batch_framed_bytes % n) then base + 1 else base in
    if ltb batch.max_framed_bytes share then batch.max_framed_bytes else share

-- The loop of `allocateCallQuotas` from call `i`, with `left` calls to go of `n`.
unfoldable pub call_quotas : OutputLimits ℕ → ℕ → ℕ → ℕ → List (OutputLimits ℕ)
unfolding share_of
call_quotas batch n i zero = []
call_quotas batch n i (suc left) =
    record batch { max_framed_bytes = share_of batch n i } ∷ call_quotas batch n (suc i) left

-- `allocateCallQuotas` for a batch that is not empty.
unfoldable pub reserve_quotas : OutputLimits ℕ → ℕ → Result (List (OutputLimits ℕ))
unfolding mul64 call_quotas
reserve_quotas batch n = elim (mul64 n per_call_error_reserve) [
  | none ↦ err reserve_overflow
  | some need ↦
      if ltb batch.max_batch_framed_bytes need
      then err reserve_too_small
      else ok (call_quotas batch n 0 n)
]

unfoldable pub allocate_call_quotas : OutputLimits ℕ → ℕ → Result (List (OutputLimits ℕ))
unfolding reserve_quotas
allocate_call_quotas batch n = if n == 0 then err empty_batch else reserve_quotas batch n

-- What `Start` does with the options of a batch of `calls` calls.
unfoldable pub start_quotas : List (Option ℤ) → OutputLimits ℕ → ℕ → Result (List (OutputLimits ℕ))
unfolding apply_start_options allocate_call_quotas
start_quotas opts base calls =
    apply_start_options opts base calls >>= λ limits. allocate_call_quotas limits calls
