-- ===== src/Loops/Config.antt =====
-- normalizeLimits of runtime/loops/config.go with normalizeContextLimits, and the limits of a session
-- from runtime/sessions/limits.go. A field of a configuration may be negative or 0, so the records take
-- the type of their numbers. Of the executor the code reads its largest batch; `none` is no executor.
pub mod Accepted
pub mod Normal
pub use serpe.Base.{ok, err, ◌>>=◌}
use serpe.Base.{
  mebibytes, Fallible, ℕ, ◌*◌, ◌^◌, ◌≤◌, Bool, true, false, ◌||◌, Option, none, some, ◌==◌, ltb,
  if◌then◌else◌, ℤ, pos, negsuc, nat_eq,
}
use serpe.Models.Limiter as Stream
use serpe.Models.Limiter.{StreamLimits, LimitError, normalize_stream_limits}

pub record ContextLimits (N : Type 0) : Type 0 where
  pub max_tool_call_argument_context_bytes : N
  pub max_tool_exchanges : N
  pub max_tool_text_context_bytes : N
  pub max_tool_image_context_bytes : N

pub record RunLimits (N : Type 0) : Type 0 where
  pub max_model_turns : N
  pub max_tool_calls : N
  pub max_observed_tokens : N
  pub max_identical_steps : N
  pub stream : StreamLimits N
  pub max_session_message_json_bytes : N
  pub max_retained_tool_bytes : N
  pub max_canonical_tool_bytes : N
  pub context : ContextLimits N

pub data ConfigError : Type 0 where
  is_negative not_between session_limits canonical_below_retained : ConfigError
  exceeds_executor tool_bytes_too_few : ConfigError
  stream_limits : LimitError → ConfigError

abbrev pub Result {ℓ} : Type ℓ → Type ℓ
Result A = Fallible ConfigError A

-- A limit that is not negative, with its default for 0.
abbrev pub or_default : ℕ → ℤ → Result ℕ
or_default default (negsuc n) = err is_negative
or_default default (pos n) = ok (if n == 0 then default else n)

-- `normalizeInt64Limit` and `normalizeIntLimit`; a negative value is below every minimum.
unfoldable pub bounded_limit : ℤ → ℕ → ℕ → Result ℕ
bounded_limit (negsuc n) ceiling minimum = err not_between
bounded_limit (pos n) ceiling minimum =
    if n == 0 then ok ceiling else if ltb n minimum || ltb ceiling n then err not_between else ok n

-- `normalizeLimits` of runtime/sessions
unfoldable pub normalize_session_limits : ℤ → Result ℕ
normalize_session_limits (negsuc n) = err session_limits
normalize_session_limits (pos n) =
    let value = if n == 0 then mebibytes 47 else n in
    if ltb value 4096 || ltb (mebibytes 47) value then err session_limits else ok value

abbrev pub not_negative : ℤ → Result ℤ
not_negative (negsuc n) = err is_negative
not_negative (pos n) = ok (pos n)

unfoldable pub normalize_context_limits : ContextLimits ℤ → Result (ContextLimits ℕ)
unfolding bounded_limit
normalize_context_limits c = not_negative c.max_tool_call_argument_context_bytes >>= λ arguments.
    not_negative c.max_tool_exchanges >>= λ exchanges.
    not_negative c.max_tool_text_context_bytes >>= λ text.
    not_negative c.max_tool_image_context_bytes >>= λ images.
    bounded_limit arguments (mebibytes 16) 2 >>= λ arguments.
    bounded_limit exchanges 16 1 >>= λ exchanges. bounded_limit text 262144 16384 >>= λ text.
    bounded_limit images (mebibytes 7) 1 >>= λ images. ok (record {
      max_tool_call_argument_context_bytes = arguments;
      max_tool_exchanges = exchanges;
      max_tool_text_context_bytes = text;
      max_tool_image_context_bytes = images;
    })

abbrev pub stream_result : Stream.Result (StreamLimits ℕ) → Result (StreamLimits ℕ)
stream_result (Stream.ok l) = ok l
stream_result (Stream.err e) = err (stream_limits e)

-- The largest number of calls with an executor: its own, where none was asked for.
abbrev pub executor_calls : Option ℕ → ℤ → ℕ → Result ℕ
executor_calls none asked calls = ok calls
executor_calls (some most) asked calls =
    let most_calls : ℕ = elim asked [ pos n ↦ if n == 0 then most else calls | negsuc n ↦ calls ] in
    if ltb most most_calls then err exceeds_executor else ok most_calls

abbrev pub tool_bytes_for : Option ℕ → ℕ → ℕ → Result (Unit {0})
tool_bytes_for none retained canonical = ok tt
tool_bytes_for (some most) retained canonical =
    if ltb retained 4096 || ltb canonical 4096 then err tool_bytes_too_few else ok tt

unfoldable pub normalize_limits : RunLimits ℤ → Option ℕ → Result (RunLimits ℕ)
unfolding normalize_session_limits bounded_limit normalize_context_limits normalize_stream_limits
normalize_limits l executor = or_default 32 l.max_model_turns >>= λ turns.
    or_default 128 l.max_tool_calls >>= λ calls. or_default 0 l.max_observed_tokens >>= λ tokens.
    or_default 3 l.max_identical_steps >>= λ steps.
    not_negative l.max_retained_tool_bytes >>= λ retained.
    not_negative l.max_canonical_tool_bytes >>= λ canonical.
    stream_result (normalize_stream_limits l.stream) >>= λ stream.
    normalize_session_limits l.max_session_message_json_bytes >>= λ session.
    bounded_limit retained (mebibytes 64) 1 >>= λ retained.
    bounded_limit canonical (mebibytes 256) 1 >>= λ canonical.
    (if ltb canonical retained then err canonical_below_retained else ok canonical) >>= λ canonical.
    executor_calls executor l.max_tool_calls calls >>= λ calls.
    tool_bytes_for executor retained canonical >>= λ enough.
    normalize_context_limits l.context >>= λ context. ok (record {
      max_model_turns = turns;
      max_tool_calls = calls;
      max_observed_tokens = tokens;
      max_identical_steps = steps;
      stream = stream;
      max_session_message_json_bytes = session;
      max_retained_tool_bytes = retained;
      max_canonical_tool_bytes = canonical;
      context = context;
    })

-- `modelStreamLimits`: what is left of the calls of a run, and at least one, bounds the calls of a turn.
unfoldable pub model_stream_limits : StreamLimits ℕ → Option ℕ → ℤ → StreamLimits ℕ
model_stream_limits l executor remaining =
    let calls : ℕ = elim remaining [ negsuc n ↦ 1 | pos n ↦ if n == 0 then 1 else n ] in
    record l {
      max_tool_calls = elim executor [
        | none ↦ calls
        | some most ↦ if ltb most calls then most else calls
      ];
    }
