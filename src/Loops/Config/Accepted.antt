-- ===== src/Loops/Config/Accepted.antt =====
-- What `normalizeLimits` of runtime/loops/config.go accepts.
use serpe.Base.{
  mebibytes, IsIn, bind_inv, ok_inj, ℕ, ◌≤◌, ◌≡◌, refl, Option, ltb, if◌then◌else◌, ℤ, arith, subst,
}
use serpe.Models.Limiter.{normalize_stream_limits}
use serpe.Loops.Config.{
  RunLimits, ok, err, canonical_below_retained, or_default, bounded_limit, normalize_session_limits,
  not_negative, stream_result, normalize_context_limits, executor_calls, tool_bytes_for,
  normalize_limits,
}
use serpe.Loops.Config.Normal.{
  IsNormal, bounded_limit-IsIn, normalize_context_limits-IsNormalContext,
  normalize_stream_limits-IsNormalStream, stream_result_inv, normalize_session_limits-IsIn,
  or_default-positive, fits_executor,
}

-- Limits that are accepted lie between their bounds, whatever is asked: a run has a turn and a step at
-- least, an event fits a turn of the model, the retained bytes of the tools fit their canonical bytes,
-- and with an executor a run has at most as many calls as its largest batch, and each of the two tool
-- budgets has at least 4096 bytes.
pub normalize_limits-IsNormal :
    (l : RunLimits ℤ) (executor : Option ℕ) (m : RunLimits ℕ)
    → normalize_limits l executor ≡ ok m
    → IsNormal executor m
unfolding normalize_limits
normalize_limits-IsNormal l executor m h =
    let (turns, q1, h1) = bind_inv (or_default 32 l.max_model_turns) _ h in
    let (calls, q2, h2) = bind_inv (or_default 128 l.max_tool_calls) _ h1 in
    let (tokens, q3, h3) = bind_inv (or_default 0 l.max_observed_tokens) _ h2 in
    let (steps, q4, h4) = bind_inv (or_default 3 l.max_identical_steps) _ h3 in
    let (asked_retained, q5, h5) = bind_inv (not_negative l.max_retained_tool_bytes) _ h4 in
    let (asked_canonical, q6, h6) = bind_inv (not_negative l.max_canonical_tool_bytes) _ h5 in
    let (stream, q7, h7) = bind_inv (stream_result (normalize_stream_limits l.stream)) _ h6 in
    let (session, q8, h8) =
      bind_inv (normalize_session_limits l.max_session_message_json_bytes) _ h7 in
    let (retained, q9, h9) = bind_inv (bounded_limit asked_retained (mebibytes 64) 1) _ h8 in
    let (most_canonical, q10, h10) =
      bind_inv (bounded_limit asked_canonical (mebibytes 256) 1) _ h9 in
    let (canonical, q11, h11) =
      bind_inv
        (if ltb most_canonical retained then err canonical_below_retained else ok most_canonical) _
        h10 in
    let (run_calls, q12, h12) = bind_inv (executor_calls executor l.max_tool_calls calls) _ h11 in
    let (enough, q13, h13) = bind_inv (tool_bytes_for executor retained canonical) _ h12 in
    let (context, q14, h14) = bind_inv (normalize_context_limits l.context) _ h13 in
    let canonical_in : IsIn 1 (mebibytes 256) most_canonical =
      bounded_limit-IsIn asked_canonical (mebibytes 256) 1 most_canonical (omega arith) q10 in
    subst (IsNormal executor) (ok_inj h14) (record {
      turns = or_default-positive 32 l.max_model_turns turns (omega arith) q1;
      steps = or_default-positive 3 l.max_identical_steps steps (omega arith) q4;
      retained = bounded_limit-IsIn asked_retained (mebibytes 64) 1 retained (omega arith) q9;
      canonical = checked retained most_canonical canonical canonical_in.1 q11;
      session = normalize_session_limits-IsIn l.max_session_message_json_bytes session q8;
      fits =
          fits_executor executor l.max_tool_calls calls run_calls retained canonical q12 q13 _
            (refl, refl, refl);
      context = normalize_context_limits-IsNormalContext l.context context q14;
      stream =
          normalize_stream_limits-IsNormalStream l.stream stream
            (stream_result_inv (normalize_stream_limits l.stream) stream q7);
    })
  where
    checked :
        (retained most canonical : ℕ)
        → most ≤ mebibytes 256
        → (if ltb most retained then err canonical_below_retained else ok most) ≡ ok canonical
        → IsIn retained (mebibytes 256) canonical
    checked retained most canonical le h = ground arith
