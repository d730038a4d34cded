-- ===== src/Loops/Admission.antt =====
-- `toolExchangeAdmission` and its helpers of runtime/loops/message_budget.go: how many bytes of tool
-- output a turn may produce. The encoded sizes of the messages come from `sessionwire` and are
-- arguments; `n` is the number of calls. What is left of a budget is its ceiling less what is used.
pub use serpe.Base.{ok, err}
use serpe.Base.{
  Fallible, max_int64, ℕ, ◌+◌, ◌-◌, ◌*◌, ◌/◌, ◌≤◌, ◌≡◌, Option, none, some, ltb, ◌||◌, ◌&&◌,
  if◌then◌else◌, arith, Option-cases, Bool-cases, inl, inr,
}

abbrev pub per_call_raw_reserve : ℕ
per_call_raw_reserve = 1024

abbrev pub raw_quota_divisor : ℕ
raw_quota_divisor = 6

pub record Admission : Type 0 where
  pub quota : ℕ
  pub reserved : ℕ
  pub assistant_bytes : ℕ
  pub minimum_group : ℕ

pub data AdmissionError : Type 0 where
  exceeds_message_ceiling exceeds_run_budget : AdmissionError

abbrev pub Result {ℓ} : Type ℓ → Type ℓ
Result A = Fallible AdmissionError A

pub record Used : Type 0 where
  pub ceiling : ℕ
  pub used : ℕ

unfoldable pub safe_add_bytes : ℕ → ℕ → Option ℕ
safe_add_bytes left right = if ltb (max_int64 - left) right then none else some (left + right)

unfoldable pub lower_to : ℕ → ℕ → ℕ
lower_to quota remaining = if ltb remaining quota then remaining else quota

-- The rest of the function, once the fixed reserve is known to fit.
unfoldable pub admit_group : ℕ → ℕ → ℕ → Used → Used → Result Admission
unfolding safe_add_bytes lower_to
admit_group assistant_bytes fixed_reserve session_ceiling retained canonical =
    elim (safe_add_bytes assistant_bytes fixed_reserve) [
      | none ↦ err exceeds_run_budget
      | some group ↦
          if ltb retained.ceiling (group + retained.used)
            || ltb canonical.ceiling (group + canonical.used)
          then err exceeds_run_budget
          else ok (record {
            quota =
                lower_to
                  (lower_to ((session_ceiling - fixed_reserve) / raw_quota_divisor)
                    (retained.ceiling - (group + retained.used)))
                  (canonical.ceiling - (group + canonical.used));
            reserved = fixed_reserve;
            assistant_bytes = assistant_bytes;
            minimum_group = group;
          })
    ]

unfoldable pub tool_exchange_admission : ℕ → ℕ → ℕ → ℕ → Used → Used → Result Admission
unfolding admit_group
tool_exchange_admission n assistant_bytes minimum_result_bytes session_ceiling retained canonical =
    elim (safe_add_bytes minimum_result_bytes (n * per_call_raw_reserve)) [
      | none ↦ err exceeds_message_ceiling
      | some fixed_reserve ↦
          if ltb session_ceiling fixed_reserve
          then err exceeds_message_ceiling
          else admit_group assistant_bytes fixed_reserve session_ceiling retained canonical
    ]

unfoldable pub clamp_to : ℕ → Admission → Admission
clamp_to ceiling a =
    if ltb 0 ceiling && ltb ceiling a.quota then record a { quota = ceiling } else a

lower_to_le : (q r : ℕ) → (lower_to q r ≤ q) × (lower_to q r ≤ r)
unfolding lower_to
lower_to_le q r = ground arith

clamp_to_le : (c : ℕ) (a : Admission) → (clamp_to c a).quota ≤ a.quota
unfolding clamp_to
clamp_to_le c a = ground arith

safe_add_bytes_inv : (x y z : ℕ) → safe_add_bytes x y ≡ some z → z ≡ x + y
unfolding safe_add_bytes
safe_add_bytes_inv x y z h = ground arith

-- What the admitted numbers are bounded by.
IsWithin : ℕ → ℕ → ℕ → Used → Used → Admission → Type 0
IsWithin ab fixed sc r c a =
    (a.quota ≤ (sc - fixed) / raw_quota_divisor)
    × (a.quota + a.minimum_group + r.used ≤ r.ceiling)
    × (a.quota + a.minimum_group + c.used ≤ c.ceiling)
    × (a.minimum_group ≡ ab + fixed)

admit_group-IsWithin :
    (ab fixed sc : ℕ) (r c : Used) (a : Admission)
    → admit_group ab fixed sc r c ≡ ok a
    → IsWithin ab fixed sc r c a
unfolding admit_group IsWithin
admit_group-IsWithin ab fixed sc r c a h = elim (Option-cases (safe_add_bytes ab fixed)) [
  | inl overflow ↦ absurd (cc (overflow, h))
  | inr (group, fits) ↦
      let left = (sc - fixed) / raw_quota_divisor in
      ground (
        arith,
        safe_add_bytes_inv ab fixed group fits,
        lower_to_le left (r.ceiling - (group + r.used)),
        lower_to_le (lower_to left (r.ceiling - (group + r.used))) (c.ceiling - (group + c.used)),
      )
]

-- An admitted exchange fits: output that grows six times when it is encoded stays under the message
-- ceiling beside the reserve of every call, and the group with the quota stays under what is left of
-- both run budgets. Clamping keeps this.
pub tool_exchange_admission_fits :
    (n assistant_bytes minimum_result_bytes session_ceiling clamp : ℕ) (retained canonical : Used)
    (a : Admission)
    → tool_exchange_admission n assistant_bytes minimum_result_bytes session_ceiling retained
        canonical
      ≡ ok a
    → let q = (clamp_to clamp a).quota in
      (raw_quota_divisor * q + minimum_result_bytes + n * per_call_raw_reserve ≤ session_ceiling)
      × (q + a.minimum_group + retained.used ≤ retained.ceiling)
      × (q + a.minimum_group + canonical.used ≤ canonical.ceiling)
      × (a.minimum_group ≡ assistant_bytes + minimum_result_bytes + n * per_call_raw_reserve)
unfolding tool_exchange_admission IsWithin
tool_exchange_admission_fits n ab mr sc cl r c a h =
    elim (Option-cases (safe_add_bytes mr (n * per_call_raw_reserve))) [
      | inl overflow ↦ absurd (cc (overflow, h))
      | inr (fixed, fits) ↦ elim (Bool-cases (ltb sc fixed)) [
        | inl over ↦ absurd (ground arith)
        | inr room ↦
            let (q, x, y, g) = admit_group-IsWithin ab fixed sc r c a (ground arith) in
            let exact = safe_add_bytes_inv mr (n * per_call_raw_reserve) fixed fits in
            let le = clamp_to_le cl a in
            let small : fixed ≤ sc = ground arith in
            (omega arith, omega arith, omega arith, omega arith)
      ]
    ]
