-- ===== src/Tools/Envelope/Accepted.antt =====
-- Which batches of calls the envelope lets pass.
use serpe.Base.{
  max_int64, ℕ, ◌+◌, ◌≤◌, ◌≡◌, ◌↔◌, refl, inl, inr, false, none, some, List, [], ◌∷◌, ==_iff, has,
  put, Bytes, bytes_eq, nat_eq, length, All, arith, Option-cases,
}
use serpe.Models.{ToolCall, Ids, has_call, has-put, bounded_identity}
use serpe.Tools.Limits.{InputLimits}
use serpe.Tools.Envelope.{add64, add_arguments, check_call, check_each, check_envelope}

-- Every call has a valid id and keeps to the limits of one call.
abbrev pub IsBoundedCall : InputLimits ℕ → ToolCall → Type 0
IsBoundedCall limits call =
    (bounded_identity call.id limits.max_call_id_bytes false ≡ none)
    × (length call.name ≤ limits.max_tool_name_bytes)
    × (length call.arguments ≤ limits.max_arguments_bytes)

abbrev pub total_arguments : List ToolCall → ℕ
total_arguments [] = 0
total_arguments (call ∷ calls) = length call.arguments + total_arguments calls

-- No id was seen, and no two calls share one.
abbrev pub IsUnseen : Ids → List ToolCall → Type 0
IsUnseen seen [] = Unit
IsUnseen seen (call ∷ calls) =
    (has call.id seen ≡ false) × (has_call call.id calls ≡ false) × IsUnseen seen calls

check_call_lem :
    (limits : InputLimits ℕ) (seen : Ids) (call : ToolCall)
    → (check_call limits seen call ≡ none)
      ↔ (IsBoundedCall limits call × (has call.id seen ≡ false))
unfolding check_call
check_call_lem limits seen call = ground arith

add_arguments_lem :
    (limits : InputLimits ℕ) (args : ℕ) (call : ToolCall) (t : ℕ)
    → limits.max_batch_argument_bytes ≤ max_int64
    → (add_arguments limits args call ≡ some t)
      ↔ ((t ≡ args + length call.arguments) × (t ≤ limits.max_batch_argument_bytes))
unfolding add_arguments add64
add_arguments_lem limits args call t le = ground arith

IsUnseen-put :
    (id : Bytes) (seen : Ids) (calls : List ToolCall)
    → IsUnseen (put id tt seen) calls ↔ (IsUnseen seen calls × (has_call id calls ≡ false))
IsUnseen-put id seen [] = (λ u. (tt, refl), λ u. tt)
IsUnseen-put id seen (call ∷ calls) =
    let (there, back) = IsUnseen-put id seen calls in
    (
      λ (new, own, u).
          let (v, apart) = there u in
          (
            (ground (arith, has-put id call.id seen), own, v),
            ground (arith, has-put id call.id seen, ==_iff id call.id, ==_iff call.id id),
          ),
      λ ((new, own, u), apart). (
        ground (arith, has-put id call.id seen, ==_iff id call.id, ==_iff call.id id),
        own,
        back (u, ground arith),
      ),
    )

check_each_sound :
    (limits : InputLimits ℕ) (seen : Ids) (args : ℕ) (calls : List ToolCall)
    → limits.max_batch_argument_bytes ≤ max_int64
    → args ≤ limits.max_batch_argument_bytes
    → check_each limits seen args calls ≡ none
    → All (IsBoundedCall limits) calls
      × IsUnseen seen calls
      × (args + total_arguments calls ≤ limits.max_batch_argument_bytes)
unfolding check_each
check_each_sound limits seen args [] le room h = (tt, tt, omega arith)
check_each_sound limits seen args (call ∷ calls) le room h =
    elim (Option-cases (check_call limits seen call)) [
      | inr (e, bad) ↦ absurd (cc (bad, h))
      | inl good ↦ elim (Option-cases (add_arguments limits args call)) [
        | inl over ↦ absurd (cc (good, over, h))
        | inr (t, added) ↦
            let (bounded, new) = (check_call_lem limits seen call).0 good in
            let (total, fits) = (add_arguments_lem limits args call t le).0 added in
            let rest : check_each limits (put call.id tt seen) t calls ≡ none =
              cc (good, added, h) in
            let (all, unseen, sum) =
              check_each_sound limits (put call.id tt seen) t calls le fits rest in
            let (u, own) = (IsUnseen-put call.id seen calls).0 unseen in
            ((bounded, all), (new, own, u), omega arith)
      ]
    ]

check_each_complete :
    (limits : InputLimits ℕ) (seen : Ids) (args : ℕ) (calls : List ToolCall)
    → limits.max_batch_argument_bytes ≤ max_int64
    → All (IsBoundedCall limits) calls
    → IsUnseen seen calls
    → args + total_arguments calls ≤ limits.max_batch_argument_bytes
    → check_each limits seen args calls ≡ none
unfolding check_each
check_each_complete limits seen args [] le all unseen sum = refl
check_each_complete limits seen args (call ∷ calls) le (bounded, all) (new, own, u) sum =
    let good = (check_call_lem limits seen call).1 (bounded, new) in
    let t = args + length call.arguments in
    let added = (add_arguments_lem limits args call t le).1 (refl, omega arith) in
    let rest =
      check_each_complete limits (put call.id tt seen) t calls le all
        ((IsUnseen-put call.id seen calls).1 (u, own)) (omega arith) in
    rw (good, added, check_each) rest

-- A batch passes the envelope exactly when it has a call and at most as many as its limit, every call
-- has a valid id and keeps to the limits of one call, no two calls share an id, and their arguments
-- together keep to the limit of a batch, which is an int64.
pub check_envelope-IsBoundedCall :
    (calls : List ToolCall) (limits : InputLimits ℕ)
    → limits.max_batch_argument_bytes ≤ max_int64
    → (check_envelope calls limits ≡ none) ↔ (
        (1 ≤ length calls)
        × (length calls ≤ limits.max_calls)
        × All (IsBoundedCall limits) calls
        × IsUnseen [] calls
        × (total_arguments calls ≤ limits.max_batch_argument_bytes))
unfolding check_envelope
check_envelope-IsBoundedCall calls limits le = (sound, complete)
  where
    sound :
        check_envelope calls limits ≡ none
        → (1 ≤ length calls)
          × (length calls ≤ limits.max_calls)
          × All (IsBoundedCall limits) calls
          × IsUnseen [] calls
          × (total_arguments calls ≤ limits.max_batch_argument_bytes)
    sound h =
        let each : check_each limits [] 0 calls ≡ none = ground arith in
        let (all, unseen, sum) = check_each_sound limits [] 0 calls le (omega arith) each in
        (ground arith, ground arith, all, unseen, omega arith)

    complete :
        (1 ≤ length calls)
          × (length calls ≤ limits.max_calls)
          × All (IsBoundedCall limits) calls
          × IsUnseen [] calls
          × (total_arguments calls ≤ limits.max_batch_argument_bytes)
        → check_envelope calls limits ≡ none
    complete (some_call, few, all, unseen, sum) =
        let each = check_each_complete limits [] 0 calls le all unseen (omega arith) in ground arith
