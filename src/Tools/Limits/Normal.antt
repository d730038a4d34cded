-- ===== src/Tools/Limits/Normal.antt =====
-- The bounds of a normalized configuration of core/tools/limits.go, and normalizing it again.
use serpe.Base.{
  AllOk, AllOk-bind, mebibytes, IsIn, ℕ, ◌*◌, ◌≤◌, ◌≡◌, ltb, ℤ, pos, negsuc, nat_eq, arith,
  Bool-cases, inl, inr, subst,
}
use serpe.Tools.Limits.{
  InputLimits, OutputLimits, Config, Result, ok, ◌>>=◌, min_text_bytes, min_framed_bytes,
  min_arguments_bytes, max_parallel_hard, set, normalize_input, normalize_output,
  normalize_parallel, normalize_config,
}

pub record IsNormalInput (i : InputLimits ℕ) : Type 0 where
  pub calls : IsIn 1 128 i.max_calls
  pub call_id_bytes : IsIn 1 1024 i.max_call_id_bytes
  pub tool_name_bytes : IsIn 1 1024 i.max_tool_name_bytes
  pub arguments_bytes : IsIn min_arguments_bytes (mebibytes 16) i.max_arguments_bytes
  pub batch_argument_bytes :
      IsIn (i.max_calls * min_arguments_bytes) (mebibytes 16) i.max_batch_argument_bytes

pub record IsNormalOutput (o : OutputLimits ℕ) : Type 0 where
  pub blocks : IsIn 1 64 o.max_blocks
  pub text_bytes : IsIn min_text_bytes 65536 o.max_text_bytes
  pub image_bytes : IsIn 1 (mebibytes 7) o.max_image_bytes
  pub image_width : IsIn 1 8192 o.max_image_width
  pub image_height : IsIn 1 8192 o.max_image_height
  pub image_pixels : IsIn 1 40000000 o.max_image_pixels
  pub framed_bytes : IsIn min_framed_bytes (mebibytes 8) o.max_framed_bytes
  pub batch_framed_bytes : IsIn min_framed_bytes (mebibytes 8) o.max_batch_framed_bytes
  pub metadata_bytes : IsIn 1 127 o.max_metadata_bytes

abbrev pub IsNormal : Config ℕ → Type 0
IsNormal c =
    IsIn 1 max_parallel_hard c.max_parallel × IsNormalInput c.input × IsNormalOutput c.output

abbrev pub input_as_given : InputLimits ℕ → InputLimits ℤ
input_as_given i = record {
  max_calls = pos i.max_calls;
  max_call_id_bytes = pos i.max_call_id_bytes;
  max_tool_name_bytes = pos i.max_tool_name_bytes;
  max_arguments_bytes = pos i.max_arguments_bytes;
  max_batch_argument_bytes = pos i.max_batch_argument_bytes;
}

abbrev pub output_as_given : OutputLimits ℕ → OutputLimits ℤ
output_as_given o = record {
  max_blocks = pos o.max_blocks;
  max_text_bytes = pos o.max_text_bytes;
  max_image_bytes = pos o.max_image_bytes;
  max_image_width = pos o.max_image_width;
  max_image_height = pos o.max_image_height;
  max_image_pixels = pos o.max_image_pixels;
  max_framed_bytes = pos o.max_framed_bytes;
  max_batch_framed_bytes = pos o.max_batch_framed_bytes;
  max_metadata_bytes = pos o.max_metadata_bytes;
}

-- The configuration that asks for exactly these limits.
abbrev pub as_given : Config ℕ → Config ℤ
as_given c = record {
  max_parallel = pos c.max_parallel;
  input = input_as_given c.input;
  output = output_as_given c.output;
}

-- What holds of a result, if there is one.
set-IsIn : (x : ℤ) (ceiling least : ℕ) → AllOk (IsIn least ceiling) (set x ceiling least)
unfolding set
set-IsIn (negsuc n) ceiling least = tt
set-IsIn (pos n) ceiling least = ground arith

-- A field that is set to a number within its bounds.
setting :
    {B : Type 0} (P : B → Type 0) (x : ℤ) (ceiling least : ℕ) (f : ℕ → Result B)
    → ((v : ℕ) → IsIn least ceiling v → AllOk P (f v))
    → AllOk P (set x ceiling least >>= f)
setting P x ceiling least f k =
    AllOk-bind (IsIn least ceiling) P (set x ceiling least) f (set-IsIn x ceiling least) k

normalize_input-IsNormalInput : (i : InputLimits ℤ) → AllOk IsNormalInput (normalize_input i)
unfolding normalize_input
normalize_input-IsNormalInput i = setting IsNormalInput i.max_calls 128 1 _ (λ calls p1.
    setting IsNormalInput i.max_call_id_bytes 1024 1 _ (λ ids p2.
      setting IsNormalInput i.max_tool_name_bytes 1024 1 _ (λ names p3.
        setting IsNormalInput i.max_arguments_bytes (mebibytes 16) min_arguments_bytes _ (λ args p4.
          setting IsNormalInput i.max_batch_argument_bytes (mebibytes 16)
            (calls * min_arguments_bytes) _
            (λ batch p5. record {
              calls = p1;
              call_id_bytes = p2;
              tool_name_bytes = p3;
              arguments_bytes = p4;
              batch_argument_bytes = p5;
            })))))

normalize_output-IsNormalOutput : (o : OutputLimits ℤ) → AllOk IsNormalOutput (normalize_output o)
unfolding normalize_output
normalize_output-IsNormalOutput o = setting IsNormalOutput o.max_blocks 64 1 _ (λ blocks p1.
    setting IsNormalOutput o.max_text_bytes 65536 min_text_bytes _ (λ text p2.
      setting IsNormalOutput o.max_image_bytes (mebibytes 7) 1 _ (λ image p3.
        setting IsNormalOutput o.max_image_width 8192 1 _ (λ width p4.
          setting IsNormalOutput o.max_image_height 8192 1 _ (λ height p5.
            setting IsNormalOutput o.max_image_pixels 40000000 1 _ (λ pixels p6.
              setting IsNormalOutput o.max_framed_bytes (mebibytes 8) min_framed_bytes _
                (λ framed p7.
                  setting IsNormalOutput o.max_batch_framed_bytes (mebibytes 8) min_framed_bytes _
                    (λ batch p8. setting IsNormalOutput o.max_metadata_bytes 127 1 _ (λ metadata p9.
                      record {
                        blocks = p1;
                        text_bytes = p2;
                        image_bytes = p3;
                        image_width = p4;
                        image_height = p5;
                        image_pixels = p6;
                        framed_bytes = p7;
                        batch_framed_bytes = p8;
                        metadata_bytes = p9;
                      })))))))))

normalize_parallel-IsIn :
    (procs : ℕ) (x : ℤ) → AllOk (IsIn 1 max_parallel_hard) (normalize_parallel procs x)
unfolding normalize_parallel
normalize_parallel-IsIn procs (negsuc n) = tt
normalize_parallel-IsIn procs (pos n) = ground arith

normalize_config-AllOk : (procs : ℕ) (c : Config ℤ) → AllOk IsNormal (normalize_config procs c)
unfolding normalize_config
normalize_config-AllOk procs c =
    AllOk-bind IsNormalInput IsNormal (normalize_input c.input) _
      (normalize_input-IsNormalInput c.input)
      (λ input p.
        AllOk-bind IsNormalOutput IsNormal (normalize_output c.output) _
          (normalize_output-IsNormalOutput c.output)
          (λ output q.
            AllOk-bind (IsIn 1 max_parallel_hard) IsNormal (normalize_parallel procs c.max_parallel)
              _ (normalize_parallel-IsIn procs c.max_parallel)
              (λ parallel r.
                elim (Bool-cases (ltb output.max_batch_framed_bytes min_framed_bytes)) [
                  | inl small ↦ rw small tt
                  | inr large ↦ rw large (r, p, q)
                ])))

set_again :
    (ceiling least v : ℕ) → 1 ≤ least → IsIn least ceiling v → set (pos v) ceiling least ≡ ok v
unfolding set
set_again ceiling least v one (low, high) = ground arith

normalize_input_again :
    (i : InputLimits ℕ) → IsNormalInput i → normalize_input (input_as_given i) ≡ ok i
unfolding normalize_input
normalize_input_again i n = rw (
  set_again 128 1 i.max_calls (omega arith) n.calls,
  set_again 1024 1 i.max_call_id_bytes (omega arith) n.call_id_bytes,
  set_again 1024 1 i.max_tool_name_bytes (omega arith) n.tool_name_bytes,
  set_again (mebibytes 16) min_arguments_bytes i.max_arguments_bytes (omega arith)
      n.arguments_bytes,
  set_again (mebibytes 16) (i.max_calls * min_arguments_bytes) i.max_batch_argument_bytes
      (omega (arith, n.calls.0)) n.batch_argument_bytes,
)

normalize_output_again :
    (o : OutputLimits ℕ) → IsNormalOutput o → normalize_output (output_as_given o) ≡ ok o
unfolding normalize_output
normalize_output_again o n = rw (
  set_again 64 1 o.max_blocks (omega arith) n.blocks,
  set_again 65536 min_text_bytes o.max_text_bytes (omega arith) n.text_bytes,
  set_again (mebibytes 7) 1 o.max_image_bytes (omega arith) n.image_bytes,
  set_again 8192 1 o.max_image_width (omega arith) n.image_width,
  set_again 8192 1 o.max_image_height (omega arith) n.image_height,
  set_again 40000000 1 o.max_image_pixels (omega arith) n.image_pixels,
  set_again (mebibytes 8) min_framed_bytes o.max_framed_bytes (omega arith) n.framed_bytes,
  set_again (mebibytes 8) min_framed_bytes o.max_batch_framed_bytes (omega arith)
      n.batch_framed_bytes,
  set_again 127 1 o.max_metadata_bytes (omega arith) n.metadata_bytes,
)

normalize_parallel_again :
    (procs n : ℕ) → IsIn 1 max_parallel_hard n → normalize_parallel procs (pos n) ≡ ok n
unfolding normalize_parallel
normalize_parallel_again procs n (low, high) = ground arith

normalize_config_again :
    (procs : ℕ) (c : Config ℕ) → IsNormal c → normalize_config procs (as_given c) ≡ ok c
unfolding normalize_config
normalize_config_again procs c (p, i, o) =
    rw
      (
        normalize_input_again c.input i,
        normalize_output_again c.output o,
        normalize_parallel_again procs c.max_parallel p,
      )
      (ground (arith, o.batch_framed_bytes.0))

-- A configuration that is accepted has limits within the ceilings of the package, positive and large
-- enough for the framing of one output and for the arguments of every call, and asking for exactly
-- these limits is accepted with the same ones.
pub normalize_config-IsNormal :
    (procs : ℕ) (c : Config ℤ) (r : Config ℕ)
    → normalize_config procs c ≡ ok r
    → IsNormal r × (normalize_config procs (as_given r) ≡ ok r)
normalize_config-IsNormal procs c r h =
    let n = subst (AllOk IsNormal) h (normalize_config-AllOk procs c) in
    (n, normalize_config_again procs r n)
