-- ===== src/Loops/Request/Fitting.antt =====
-- Which of its projections prepareModelRequest of runtime/loops/config.go sends.
use serpe.Base.{
  Fallible-cases, ℕ, zero, suc, ◌+◌, ◌≤◌, ◌<◌, ◌≡◌, refl, Bool, true, false, ◌||◌, Option, none,
  some, List, [], ◌∷◌, length, length-append, ltb, leb, if◌then◌else◌, ℤ, pos, negsuc, arith,
  Bool-cases, inl, inr, ◌⊎◌, subst,
}
use serpe.Loops.Request.{
  ProjectionPlan, ProjectionInfo, Result, ok, err, RequestError, exceeds, cancelled, sizing_failed,
  negative_size, checked_size, delete_plans, max_deletes, older_omitted, deleted_base,
  contraction_plans, attempt, try_plans, first_plan, prepare_model_request,
}

length-delete_plans :
    (base : ProjectionPlan) (deleted count : ℕ) → length (delete_plans base deleted count) ≡ count
unfolding delete_plans
length-delete_plans base deleted zero = refl
length-delete_plans base deleted (suc count) =
    ground (arith, length-delete_plans base (suc deleted) count)

length-one : (b : Bool) (p : ProjectionPlan) → length (if b then p ∷ [] else []) ≤ 1
length-one true p = omega arith
length-one false p = omega arith

-- The plan that omits older results, at most 15 deletions, and the plan that omits the latest results.
contraction_plans_few :
    (base : ProjectionPlan) (initial : ProjectionInfo) (allow : Bool)
    → length (contraction_plans base initial allow) ≤ 17
unfolding contraction_plans
contraction_plans_few base initial allow =
    let omits : Bool = ltb 1 initial.retained_groups || ltb 0 initial.dropped_groups in
    let next : ProjectionPlan = if omits then older_omitted base else base in
    let deletes : ℕ = max_deletes initial allow in
    let most : deletes ≤ 15 = ground arith in
    let last : ProjectionPlan = record (deleted_base next deletes) { omit_latest_results = true } in
    rw (length-append, length-append, length-delete_plans)
      (omega (
        arith,
        most,
        length-one omits (older_omitted base),
        length-one (ltb 0 initial.retained_groups) last,
      ))

module _ {Request : Type 0} (request_planned : ProjectionPlan → Result (Request × ProjectionInfo))
    (size_bound : Request → Option ℤ) (done : ℕ → Bool) (maximum : ℕ) where
  -- The request that a plan makes, with its size.
  pub record Makes (plan : ProjectionPlan) (request : Request) (size : ℕ) : Type 0 where
    pub info : ProjectionInfo
    pub made : request_planned plan ≡ ok (request, info)
    pub sized : size_bound request ≡ some (pos size)

  -- The plan makes a request that is too large.
  pub data IsTooLarge (plan : ProjectionPlan) : Type 0 where
    too_large :
        {request : Request} (size : ℕ) → Makes plan request size → maximum < size → IsTooLarge plan

  -- The error that ends the trial at a plan.
  pub data Breaks (plan : ProjectionPlan) : RequestError → Type 0 where
    unmade : {e : RequestError} → request_planned plan ≡ err e → Breaks plan e
    over : (asked : ℕ) → done asked ≡ true → Breaks plan cancelled
    unsized :
        {e : RequestError} (request : Request) (info : ProjectionInfo)
        → request_planned plan ≡ ok (request, info)
        → checked_size (size_bound request) ≡ err e
        → Breaks plan e

  -- What the plans come to, tried one after the other: the first of them that fits, no plan at all, or
  -- an error on the way.
  pub data FirstFit : List ProjectionPlan → Result (Request × ℕ) → Type 0 where
    fits :
        {plan : ProjectionPlan} {plans : List ProjectionPlan} (request : Request) (size : ℕ)
        → Makes plan request size
        → size ≤ maximum
        → FirstFit (plan ∷ plans) (ok (request, size))
    later :
        {plan : ProjectionPlan} {plans : List ProjectionPlan} {r : Result (Request × ℕ)}
        → IsTooLarge plan
        → FirstFit plans r
        → FirstFit (plan ∷ plans) r
    stops :
        {plan : ProjectionPlan} {plans : List ProjectionPlan} {e : RequestError}
        → Breaks plan e
        → FirstFit (plan ∷ plans) (err e)
    nothing_fits : (last all : ℕ) → FirstFit [] (err (exceeds last all))

  checked_size_cases :
      (answer : Option ℤ)
      → ((n : ℕ) × (answer ≡ some (pos n))) ⊎ ((e : RequestError) × (checked_size answer ≡ err e))
  checked_size_cases none = inr (sizing_failed, refl)
  checked_size_cases (some (negsuc n)) = inr (negative_size, refl)
  checked_size_cases (some (pos n)) = inl (n, refl)

  abbrev attempted : ℕ → ProjectionPlan → Result (Request × ProjectionInfo × ℕ)
  attempted = attempt request_planned size_bound done

  attempt_cases :
      (asked : ℕ) (plan : ProjectionPlan)
      → ((request : Request) × (size : ℕ) × (makes : Makes plan request size) × (attempted asked
              plan
            ≡ ok (request, makes.info, size)))
        ⊎ ((e : RequestError) × (attempted asked plan ≡ err e) × Breaks plan e)
  unfolding attempt
  attempt_cases asked plan = elim (Fallible-cases (request_planned plan)) [
    | inr (e, broken) ↦ inr (e, rw (broken, attempt) refl, unmade broken)
    | inl ((request, info), made) ↦ elim (Bool-cases (done asked)) [
      | inl stopped ↦ inr (cancelled, rw (made, stopped, attempt) refl, over asked stopped)
      | inr going ↦ elim (checked_size_cases (size_bound request)) [
        | inr (e, broken) ↦
            inr (e, rw (made, going, broken, attempt) refl, unsized request info made broken)
        | inl (size, sized) ↦ inl (
          request,
          size,
          record { info = info; made = made; sized = sized },
          rw (made, going, sized, attempt) refl,
        )
      ]
    ]
  ]

  try_plans-FirstFit :
      (all i last : ℕ) (plans : List ProjectionPlan)
      → i + length plans ≤ 18
      → FirstFit plans (try_plans request_planned size_bound done maximum all plans i last)
  unfolding try_plans
  try_plans-FirstFit all i last [] few = nothing_fits last (1 + all)
  try_plans-FirstFit all i last (plan ∷ plans) few = elim (attempt_cases (i + 2) plan) [
    | inr (e, tried, broken) ↦ rw tried (stops broken)
    | inl (request, size, makes, tried) ↦ elim (Bool-cases (leb size maximum)) [
      | inl small ↦ rw (tried, small) (fits request size makes (ground arith))
      | inr large ↦
          let goes_on : leb 19 (i + 1) ≡ false = ground arith in
          rw (tried, large, goes_on)
            (later (too_large size makes (ground arith))
              (try_plans-FirstFit all (suc i) size plans (ground arith)))
    ]
  ]

  -- With a bound on the encoded request, a request that the context and the conversation let begin comes
  -- to the first of its projections that fits: the full one, then those of `contraction_plans` in their
  -- order, none of which the end of the loop at 19 cuts off. A projection is sent only where its size is
  -- within the bound and the size of every earlier one is above it; and the error that the bound is
  -- exceeded, without a failure of the conversation, the sizer or the context, means that every one of
  -- them is too large.
  pub prepare_model_request-FirstFit :
      (allow : Bool) (request : Request) (initial : ProjectionInfo)
      → done 0 ≡ false
      → request_planned (first_plan allow) ≡ ok (request, initial)
      → FirstFit
          (first_plan allow ∷ contraction_plans (first_plan allow) initial allow)
          (prepare_model_request request_planned size_bound done allow (some maximum))
  unfolding prepare_model_request
  prepare_model_request-FirstFit allow request initial going made =
      elim (attempt_cases 1 (first_plan allow)) [
        | inr (e, tried, broken) ↦ rw (going, tried) (stops broken)
        | inl (request', size, makes, tried) ↦ elim (Bool-cases (leb size maximum)) [
          | inl small ↦ rw (going, tried, small) (fits request' size makes (ground arith))
          | inr large ↦
              let same : makes.info ≡ initial = cc (made, makes.made) in
              let plans = contraction_plans (first_plan allow) makes.info allow in
              let few : length plans ≤ 17 =
                contraction_plans_few (first_plan allow) makes.info allow in
              let tail : FirstFit plans
                  (try_plans request_planned size_bound done maximum (length plans) plans 0 size) =
                try_plans-FirstFit (length plans) 0 size plans (omega (arith, few)) in
              rw (going, tried, large)
                (later (too_large size makes (ground arith)) (
                  subst
                    (λ info. FirstFit (contraction_plans (first_plan allow) info allow) (
                      try_plans request_planned size_bound done maximum (length plans) plans 0
                        size))
                    same tail))
        ]
      ]
