-- ===== src/Loops/Config/Normal.antt =====
-- The bounds of the limits that runtime/loops/config.go accepts.
use serpe.Base.{
  mebibytes, IsIn, bind_inv, ok_inj, ℕ, ◌*◌, ◌^◌, ◌≤◌, ◌≡◌, Option, none, some, ltb, if◌then◌else◌,
  ℤ, pos, negsuc, nat_eq, arith, subst, ap,
}
use serpe.Models.Limiter as Stream
use serpe.Models.Limiter.{StreamLimits, LimitError, stream_limit, normalize_stream_limits}
use serpe.Loops.Config.{
  ContextLimits, RunLimits, ok, err, or_default, bounded_limit, normalize_session_limits,
  not_negative, stream_result, normalize_context_limits, executor_calls, tool_bytes_for,
}

pub record IsNormalContext (c : ContextLimits ℕ) : Type 0 where
  pub arguments : IsIn 2 (mebibytes 16) c.max_tool_call_argument_context_bytes
  pub exchanges : IsIn 1 16 c.max_tool_exchanges
  pub text : IsIn 16384 262144 c.max_tool_text_context_bytes
  pub images : IsIn 1 (mebibytes 7) c.max_tool_image_context_bytes

pub record IsNormalStream (l : StreamLimits ℕ) : Type 0 where
  pub event_bytes : IsIn 512 (mebibytes 2) l.max_event_bytes
  pub turn_bytes : IsIn l.max_event_bytes (mebibytes 32) l.max_turn_bytes
  pub events : IsIn 2 65536 l.max_events
  pub candidates : IsIn 1 8 l.max_candidates
  pub parts : IsIn 1 4096 l.max_parts
  pub metadata_entries : IsIn 1 256 l.max_metadata_entries
  pub tool_calls : IsIn 1 128 l.max_tool_calls

-- What an executor asks of the limits of a run.
abbrev pub FitsExecutor : Option ℕ → RunLimits ℕ → Type 0
FitsExecutor none l = Unit
FitsExecutor (some most) l =
    (l.max_tool_calls ≤ most)
    × (4096 ≤ l.max_retained_tool_bytes)
    × (4096 ≤ l.max_canonical_tool_bytes)

pub record IsNormal (executor : Option ℕ) (l : RunLimits ℕ) : Type 0 where
  pub turns : 1 ≤ l.max_model_turns
  pub steps : 1 ≤ l.max_identical_steps
  pub retained : IsIn 1 (mebibytes 64) l.max_retained_tool_bytes
  pub canonical : IsIn l.max_retained_tool_bytes (mebibytes 256) l.max_canonical_tool_bytes
  pub session : IsIn 4096 (mebibytes 47) l.max_session_message_json_bytes
  pub fits : FitsExecutor executor l
  pub context : IsNormalContext l.context
  pub stream : IsNormalStream l.stream

pub bounded_limit-IsIn :
    (z : ℤ) (ceiling minimum n : ℕ)
    → minimum ≤ ceiling
    → bounded_limit z ceiling minimum ≡ ok n
    → IsIn minimum ceiling n
unfolding bounded_limit
bounded_limit-IsIn (negsuc k) ceiling minimum n le h = absurd (cc (h))
bounded_limit-IsIn (pos k) ceiling minimum n le h = ground arith

stream_limit-IsIn :
    (z : ℤ) (ceiling minimum n : ℕ)
    → minimum ≤ ceiling
    → stream_limit z ceiling minimum ≡ Stream.ok n
    → IsIn minimum ceiling n
unfolding stream_limit
stream_limit-IsIn (negsuc k) ceiling minimum n le h = absurd (cc (h))
stream_limit-IsIn (pos k) ceiling minimum n le h = ground arith

pub normalize_context_limits-IsNormalContext :
    (c : ContextLimits ℤ) (d : ContextLimits ℕ)
    → normalize_context_limits c ≡ ok d
    → IsNormalContext d
unfolding normalize_context_limits
normalize_context_limits-IsNormalContext c d h =
    let (z1, p1, h1) = bind_inv (not_negative c.max_tool_call_argument_context_bytes) _ h in
    let (z2, p2, h2) = bind_inv (not_negative c.max_tool_exchanges) _ h1 in
    let (z3, p3, h3) = bind_inv (not_negative c.max_tool_text_context_bytes) _ h2 in
    let (z4, p4, h4) = bind_inv (not_negative c.max_tool_image_context_bytes) _ h3 in
    let (arguments, q1, h5) = bind_inv (bounded_limit z1 (mebibytes 16) 2) _ h4 in
    let (exchanges, q2, h6) = bind_inv (bounded_limit z2 16 1) _ h5 in
    let (text, q3, h7) = bind_inv (bounded_limit z3 262144 16384) _ h6 in
    let (images, q4, h8) = bind_inv (bounded_limit z4 (mebibytes 7) 1) _ h7 in
    subst IsNormalContext (ok_inj h8) (record {
      arguments = bounded_limit-IsIn z1 (mebibytes 16) 2 arguments (omega arith) q1;
      exchanges = bounded_limit-IsIn z2 16 1 exchanges (omega arith) q2;
      text = bounded_limit-IsIn z3 262144 16384 text (omega arith) q3;
      images = bounded_limit-IsIn z4 (mebibytes 7) 1 images (omega arith) q4;
    })

pub normalize_stream_limits-IsNormalStream :
    (l : StreamLimits ℤ) (m : StreamLimits ℕ)
    → normalize_stream_limits l ≡ Stream.ok m
    → IsNormalStream m
unfolding normalize_stream_limits
normalize_stream_limits-IsNormalStream l m h =
    let (event_bytes, q1, h1) = bind_inv (stream_limit l.max_event_bytes (2 * 2 ^ 20) 512) _ h in
    let (turn, q2, h2) = bind_inv (stream_limit l.max_turn_bytes (32 * 2 ^ 20) 1024) _ h1 in
    let (turn_bytes, q3, h3) =
      bind_inv (if ltb turn event_bytes then Stream.err Stream.turn_below_event else Stream.ok turn)
        _ h2 in
    let (events, q4, h4) = bind_inv (stream_limit l.max_events 65536 2) _ h3 in
    let (candidates, q5, h5) = bind_inv (stream_limit l.max_candidates 8 1) _ h4 in
    let (parts, q6, h6) = bind_inv (stream_limit l.max_parts 4096 1) _ h5 in
    let (entries, q7, h7) = bind_inv (stream_limit l.max_metadata_entries 256 1) _ h6 in
    let (calls, q8, h8) = bind_inv (stream_limit l.max_tool_calls 128 1) _ h7 in
    let turn_in : IsIn 1024 (mebibytes 32) turn =
      stream_limit-IsIn l.max_turn_bytes (mebibytes 32) 1024 turn (omega arith) q2 in
    subst IsNormalStream (ok_inj h8) (record {
      event_bytes =
          stream_limit-IsIn l.max_event_bytes (mebibytes 2) 512 event_bytes (omega arith) q1;
      turn_bytes = checked event_bytes turn turn_bytes turn_in.1 q3;
      events = stream_limit-IsIn l.max_events 65536 2 events (omega arith) q4;
      candidates = stream_limit-IsIn l.max_candidates 8 1 candidates (omega arith) q5;
      parts = stream_limit-IsIn l.max_parts 4096 1 parts (omega arith) q6;
      metadata_entries = stream_limit-IsIn l.max_metadata_entries 256 1 entries (omega arith) q7;
      tool_calls = stream_limit-IsIn l.max_tool_calls 128 1 calls (omega arith) q8;
    })
  where
    checked :
        (event turn bytes : ℕ)
        → turn ≤ mebibytes 32
        → (if ltb turn event then Stream.err Stream.turn_below_event else Stream.ok turn)
          ≡ Stream.ok bytes
        → IsIn event (mebibytes 32) bytes
    checked event turn bytes most h = ground arith

pub stream_result_inv :
    (r : Stream.Result (StreamLimits ℕ)) (m : StreamLimits ℕ)
    → stream_result r ≡ ok m
    → r ≡ Stream.ok m
stream_result_inv (Stream.ok l) m h = ap Stream.ok (ok_inj h)
stream_result_inv (Stream.err e) m h = absurd (cc (h))

pub normalize_session_limits-IsIn :
    (z : ℤ) (n : ℕ) → normalize_session_limits z ≡ ok n → IsIn 4096 (mebibytes 47) n
unfolding normalize_session_limits
normalize_session_limits-IsIn (negsuc k) n h = absurd (cc (h))
normalize_session_limits-IsIn (pos k) n h = ground arith

pub or_default-positive :
    (default : ℕ) (z : ℤ) (n : ℕ) → 1 ≤ default → or_default default z ≡ ok n → 1 ≤ n
or_default-positive default (negsuc k) n le h = absurd (cc (h))
or_default-positive default (pos k) n le h = ground arith

executor_calls-most :
    (most : ℕ) (asked : ℤ) (calls n : ℕ) → executor_calls (some most) asked calls ≡ ok n → n ≤ most
executor_calls-most most (negsuc k) calls n h = ground arith
executor_calls-most most (pos k) calls n h = ground arith

pub fits_executor :
    (executor : Option ℕ) (asked : ℤ) (calls n retained canonical : ℕ)
    → executor_calls executor asked calls ≡ ok n
    → tool_bytes_for executor retained canonical ≡ ok tt
    → (l : RunLimits ℕ)
    → (l.max_tool_calls ≡ n)
      × (l.max_retained_tool_bytes ≡ retained)
      × (l.max_canonical_tool_bytes ≡ canonical)
    → FitsExecutor executor l
fits_executor none asked calls n retained canonical h enough l fields = tt
fits_executor (some most) asked calls n retained canonical h enough l (f1, f2, f3) =
    let le = executor_calls-most most asked calls n h in (ground arith, ground arith, ground arith)
