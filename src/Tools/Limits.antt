-- ===== src/Tools/Limits.antt =====
-- core/tools/limits.go: the limits of an executor. A field of a configuration may be negative or 0;
-- a normalized one is a positive number, so the records take the type of their numbers.
pub mod Normal
pub use serpe.Base.{ok, err, ◌>>=◌}
use serpe.Base.{
  mebibytes, Fallible, ℕ, ◌+◌, ◌-◌, ◌*◌, ◌^◌, ◌≤◌, ◌≡◌, refl, Bool, true, false, ltb, ◌==◌,
  if◌then◌else◌, ℤ, pos, negsuc, nat_eq, arith, Bool-cases, inl, inr,
}

pub record InputLimits (N : Type 0) : Type 0 where
  pub max_calls : N
  pub max_call_id_bytes : N
  pub max_tool_name_bytes : N
  pub max_arguments_bytes : N
  pub max_batch_argument_bytes : N

pub record OutputLimits (N : Type 0) : Type 0 where
  pub max_blocks : N
  pub max_text_bytes : N
  pub max_image_bytes : N
  pub max_image_width : N
  pub max_image_height : N
  pub max_image_pixels : N
  pub max_framed_bytes : N
  pub max_batch_framed_bytes : N
  pub max_metadata_bytes : N

pub record Config (N : Type 0) : Type 0 where
  pub max_parallel : N
  pub input : InputLimits N
  pub output : OutputLimits N

pub data LimitError : Type 0 where
  is_negative exceeds_ceiling below_minimum : LimitError

abbrev pub Result {ℓ} : Type ℓ → Type ℓ
Result A = Fallible LimitError A

abbrev pub min_text_bytes : ℕ
min_text_bytes = 512

abbrev pub min_framed_bytes : ℕ
min_framed_bytes = 1024

abbrev pub min_arguments_bytes : ℕ
min_arguments_bytes = 2

abbrev pub max_parallel_hard : ℕ
max_parallel_hard = 32

abbrev pub min_parallel_derived : ℕ
min_parallel_derived = 4

-- The closure `set` of `normalizeInput` and `normalizeOutput`, and `setI`; every default is its
-- ceiling.
unfoldable pub set : ℤ → ℕ → ℕ → Result ℕ
set (negsuc n) ceiling least = err is_negative
set (pos n) ceiling least =
    let value = if n == 0 then ceiling else n in
    if ltb ceiling value
    then err exceeds_ceiling
    else if ltb value least
    then err below_minimum
    else ok value

unfoldable pub normalize_input : InputLimits ℤ → Result (InputLimits ℕ)
unfolding set
normalize_input i = set i.max_calls 128 1 >>= λ calls.
    set i.max_call_id_bytes 1024 1 >>= λ id_bytes.
    set i.max_tool_name_bytes 1024 1 >>= λ name_bytes.
    set i.max_arguments_bytes (mebibytes 16) min_arguments_bytes >>= λ arguments.
    set i.max_batch_argument_bytes (mebibytes 16) (calls * min_arguments_bytes) >>= λ batch.
    ok (record {
      max_calls = calls;
      max_call_id_bytes = id_bytes;
      max_tool_name_bytes = name_bytes;
      max_arguments_bytes = arguments;
      max_batch_argument_bytes = batch;
    })

unfoldable pub normalize_output : OutputLimits ℤ → Result (OutputLimits ℕ)
unfolding set
normalize_output o = set o.max_blocks 64 1 >>= λ blocks.
    set o.max_text_bytes 65536 min_text_bytes >>= λ text.
    set o.max_image_bytes (mebibytes 7) 1 >>= λ image. set o.max_image_width 8192 1 >>= λ width.
    set o.max_image_height 8192 1 >>= λ height. set o.max_image_pixels 40000000 1 >>= λ pixels.
    set o.max_framed_bytes (mebibytes 8) min_framed_bytes >>= λ framed.
    set o.max_batch_framed_bytes (mebibytes 8) min_framed_bytes >>= λ batch.
    set o.max_metadata_bytes 127 1 >>= λ metadata. ok (record {
      max_blocks = blocks;
      max_text_bytes = text;
      max_image_bytes = image;
      max_image_width = width;
      max_image_height = height;
      max_image_pixels = pixels;
      max_framed_bytes = framed;
      max_batch_framed_bytes = batch;
      max_metadata_bytes = metadata;
    })

-- `procs` is `runtime.GOMAXPROCS(0)`.
unfoldable pub normalize_parallel : ℕ → ℤ → Result ℕ
normalize_parallel procs (negsuc n) = err is_negative
normalize_parallel procs (pos n) =
    if n == 0
    then (let least = if ltb procs min_parallel_derived then min_parallel_derived else procs in
        ok (if ltb max_parallel_hard least then max_parallel_hard else least))
    else if ltb max_parallel_hard n
    then err exceeds_ceiling
    else ok n

unfoldable pub normalize_config : ℕ → Config ℤ → Result (Config ℕ)
unfolding normalize_input normalize_output normalize_parallel
normalize_config procs c = normalize_input c.input >>= λ input.
    normalize_output c.output >>= λ output. normalize_parallel procs c.max_parallel >>= λ parallel.
    (if ltb output.max_batch_framed_bytes min_framed_bytes
      then err below_minimum
      else ok (record { max_parallel = parallel; input = input; output = output }))
