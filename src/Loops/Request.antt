-- ===== src/Loops/Request.antt =====
-- contractionPlans, prepareModelRequest and encodedRequestSizeUpperBound of runtime/loops/config.go.
-- `request_planned` is the request that a conversation makes under a plan, with what it has kept of the
-- tool groups. `size_bound` is the answer of the model's sizer, `none` where it fails or panics, and
-- `done` the answer of the context by the number of the question.
pub mod Fitting
pub use serpe.Base.{ok, err}
use serpe.Base.{
  Fallible, ℕ, zero, suc, ◌+◌, ◌-◌, Bool, true, false, ◌||◌, Option, none, some, List, [], ◌∷◌,
  ◌++◌, ◌==◌, nat_eq, ltb, leb, if◌then◌else◌, ℤ, pos, negsuc, length,
}

pub record ProjectionPlan : Type 0 where
  pub allow_group_deletion : Bool
  pub detailed_summary : Bool
  pub drop_oldest_retained : ℕ
  pub omit_older_results : Bool
  pub omit_latest_results : Bool

pub record ProjectionInfo : Type 0 where
  pub retained_groups : ℕ
  pub dropped_groups : ℕ

-- One plan for each number of groups to drop, in order; `count` numbers from `deleted` on.
unfoldable pub delete_plans : ProjectionPlan → ℕ → ℕ → List ProjectionPlan
delete_plans base deleted zero = []
delete_plans base deleted (suc count) =
    record base { drop_oldest_retained = deleted } ∷ delete_plans base (suc deleted) count

-- The plan that the deletions start from.
abbrev pub older_omitted : ProjectionPlan → ProjectionPlan
older_omitted base = record base { detailed_summary = false; omit_older_results = true }

abbrev pub max_deletes : ProjectionInfo → Bool → ℕ
max_deletes initial allow_delete =
    let most : ℕ =
      if ltb 15 (initial.retained_groups - 1) then 15 else initial.retained_groups - 1 in
    if allow_delete then most else 0

-- The plan with all that the loop drops, from which the last plan is made.
abbrev pub deleted_base : ProjectionPlan → ℕ → ProjectionPlan
deleted_base base n = if n == 0 then base else record base { drop_oldest_retained = n }

unfoldable pub contraction_plans : ProjectionPlan → ProjectionInfo → Bool → List ProjectionPlan
unfolding delete_plans
contraction_plans base initial allow_delete =
    let omits : Bool = ltb 1 initial.retained_groups || ltb 0 initial.dropped_groups in
    let first : List ProjectionPlan = if omits then older_omitted base ∷ [] else [] in
    let next : ProjectionPlan = if omits then older_omitted base else base in
    let deletes : ℕ = max_deletes initial allow_delete in
    let last : List ProjectionPlan =
      if ltb 0 initial.retained_groups
      then record (deleted_base next deletes) { omit_latest_results = true } ∷ []
      else [] in
    first ++ (delete_plans next 1 deletes ++ last)

abbrev pub first_plan : Bool → ProjectionPlan
first_plan allow = record {
  allow_group_deletion = allow;
  detailed_summary = true;
  drop_oldest_retained = 0;
  omit_older_results = false;
  omit_latest_results = false;
}

pub data RequestError : Type 0 where
  cancelled request_failed sizing_failed negative_size : RequestError
  exceeds : ℕ → ℕ → RequestError

abbrev pub Result {ℓ} : Type ℓ → Type ℓ
Result A = Fallible RequestError A

-- `encodedRequestSizeUpperBound`
abbrev pub checked_size : Option ℤ → Result ℕ
checked_size none = err sizing_failed
checked_size (some (negsuc n)) = err negative_size
checked_size (some (pos n)) = ok n

module _ {Request : Type 0} (request_planned : ProjectionPlan → Result (Request × ProjectionInfo))
    (size_bound : Request → Option ℤ) (done : ℕ → Bool) where
  -- A request under a plan with its size; `asked` questions have been put to the context.
  unfoldable pub attempt : ℕ → ProjectionPlan → Result (Request × ProjectionInfo × ℕ)
  attempt asked plan = elim (request_planned plan) [
    | err e ↦ err e
    | ok (request, info) ↦
        if done asked then err cancelled else elim (checked_size (size_bound request)) [
          | err e ↦ err e
          | ok size ↦ ok (request, info, size)
        ]
  ]

  -- What becomes of an attempt: the request if it fits, else what `rest` makes of its size.
  abbrev pub unless_fits :
      ℕ → Result (Request × ProjectionInfo × ℕ) → (ℕ → Result (Request × ℕ)) → Result (Request × ℕ)
  unless_fits maximum (err e) rest = err e
  unless_fits maximum (ok (request, info, size)) rest =
      if leb size maximum then ok (request, size) else rest size

  -- The loop over the plans, with the number of the plan, all their number and the last size.
  unfoldable pub try_plans : ℕ → ℕ → List ProjectionPlan → ℕ → ℕ → Result (Request × ℕ)
  unfolding attempt
  try_plans maximum all [] i last = err (exceeds last (1 + all))
  try_plans maximum all (plan ∷ plans) i last = unless_fits maximum (attempt (i + 2) plan) (λ size.
      let rest = try_plans maximum all plans (suc i) size in
      if leb 19 (i + 1) then err (exceeds size (1 + all)) else rest)

  -- With `budget` the model has a sizer, and it is the most that an encoded request may have.
  unfoldable pub prepare_model_request : Bool → Option ℕ → Result (Request × ℕ)
  unfolding attempt try_plans contraction_plans
  prepare_model_request allow none =
      if done 0 then err cancelled else elim (request_planned (first_plan allow)) [
        | err e ↦ err e
        | ok (request, initial) ↦ ok (request, 0)
      ]
  prepare_model_request allow (some maximum) =
      if done 0 then err cancelled else elim (attempt 1 (first_plan allow)) [
        | err e ↦ err e
        | ok (request, initial, size) ↦
            if leb size maximum
            then ok (request, size)
            else (let plans = contraction_plans (first_plan allow) initial allow in
                try_plans maximum (length plans) plans 0 size)
      ]
