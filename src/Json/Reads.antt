-- ===== src/Json/Reads.antt =====
-- The strings and the lexemes of internal/jsonvalue/parse.go: their fuel is enough, a string takes at
-- least its quote, and a lexeme is a front part of the text that keeps to its budget.
use serpe.Base.{
  in_range, ℕ, zero, suc, ◌≤◌, inl, inr, [], ◌∷◌, ◌++◌, length, length-drop, Bytes, arith,
  Bool-cases, Option-cases, ◌+◌, ◌*◌, not, ◌||◌, ◌&&◌, ◌==◌, nat_eq, decode_rune, drop, take, ◌-◌,
  ltb,
}
use serpe.Json.{Outcome, map_outcome}
use serpe.Json.Text.{
  hex_digits, hex_value, read_escape, parse_hex4, low_surrogate, decode_unicode, decode_escape,
  encode_rune, text_step, text_body, parse_string, class_of, ByteClass, quote, backslash, control,
  ascii, high, is_invalid, escape_of, Escape, byte, unicode, unknown,
}
use serpe.Json.Ensures.{Ensures, Ensures-bind, Ensures-map, Ensures-weaken, Shorter}

hex_digits-Ensures :
    (k r : ℕ) (s : Bytes) → Ensures (λ v rest. length rest + k ≤ length s) (hex_digits k r s)
unfolding hex_digits
hex_digits-Ensures zero r s = omega arith
hex_digits-Ensures (suc k) r [] = λ h. cc (h)
hex_digits-Ensures (suc k) r (c ∷ s) = elim (Option-cases (hex_value c)) [
  | inl none_there ↦ rw (none_there, hex_digits) (λ h. cc (h))
  | inr (v, there) ↦
      rw (there, hex_digits)
        (Ensures-weaken (hex_digits k (r * 16 + v) s) (hex_digits-Ensures k (r * 16 + v) s)
          (λ w rest h. omega arith))
]

parse_hex4-Shorter : (s : Bytes) → Ensures (Shorter s) (parse_hex4 s)
unfolding parse_hex4
parse_hex4-Shorter s =
    Ensures-weaken (hex_digits 4 0 s) (hex_digits-Ensures 4 0 s) (λ w rest h. omega arith)

low_surrogate-Shorter : (r : ℕ) (s : Bytes) → Ensures (Shorter s) (low_surrogate r s)
unfolding low_surrogate
low_surrogate-Shorter r (b ∷ u ∷ s) =
    elim (Bool-cases (ltb (length s) 4 || not (b == b'\\' && u == b'u'))) [
      | inl refused ↦ rw refused (λ h. cc (h))
      | inr fine ↦ rw fine (
          Ensures-bind (Shorter s) (Shorter (b ∷ u ∷ s)) (parse_hex4 s) _ (parse_hex4-Shorter s)
            (λ low rest shorter. ground arith))
    ]
low_surrogate-Shorter r (b ∷ []) = λ h. cc (h)
low_surrogate-Shorter r [] = λ h. cc (h)

decode_unicode-Shorter : (s : Bytes) → Ensures (Shorter s) (decode_unicode s)
unfolding decode_unicode
decode_unicode-Shorter s =
    Ensures-bind (Shorter s) (Shorter s) (parse_hex4 s) _ (parse_hex4-Shorter s) (λ r rest shorter.
      elim (Bool-cases (in_range 0xdc00 0xdfff r)) [
        | inl low ↦ rw low (λ h. cc (h))
        | inr fine ↦ elim (Bool-cases (in_range 0xd800 0xdbff r)) [
          | inl pair ↦
              rw (fine, pair)
                (Ensures-weaken (low_surrogate r rest) (low_surrogate-Shorter r rest)
                  (λ w t h. omega arith))
          | inr one ↦ rw (fine, one) shorter
        ]
      ])

read_escape-Ensures :
    (e : Escape) (s : Bytes) → Ensures (λ bytes rest. length rest ≤ length s) (read_escape e s)
unfolding read_escape
read_escape-Ensures (byte b) s = omega arith
read_escape-Ensures unicode s =
    Ensures-map (Shorter s) (λ bytes rest. length rest ≤ length s) encode_rune (decode_unicode s)
      (decode_unicode-Shorter s) (λ r rest shorter. omega arith)
read_escape-Ensures unknown s = λ h. cc (h)

decode_escape-Shorter : (s : Bytes) → Ensures (Shorter s) (decode_escape s)
unfolding decode_escape
decode_escape-Shorter [] = λ h. cc (h)
decode_escape-Shorter (c ∷ s) =
    Ensures-weaken (read_escape (escape_of c) s) (read_escape-Ensures (escape_of c) s)
      (λ w t h. omega arith)

module _ (next : Bytes → Outcome Bytes) (c : ℕ) (s : Bytes)
    (reads : (t : Bytes) → length t ≤ length s → Ensures (Shorter t) (next t)) where
  next-Shorter :
      (k : Bytes → Bytes) (t : Bytes)
      → length t ≤ length s
      → Ensures (Shorter (c ∷ s)) (map_outcome k (next t))
  next-Shorter k t le =
      Ensures-map (Shorter t) (Shorter (c ∷ s)) k (next t) (reads t le)
        (λ a rest shorter. omega (arith, le))

  text_step-Shorter : (b : ByteClass) → Ensures (Shorter (c ∷ s)) (text_step b next c s)
  unfolding text_step
  text_step-Shorter quote = omega arith
  text_step-Shorter backslash =
      Ensures-bind (Shorter s) (Shorter (c ∷ s)) (decode_escape s) _ (decode_escape-Shorter s)
        (λ bytes rest shorter. next-Shorter (λ more. bytes ++ more) rest (omega arith))
  text_step-Shorter control = λ h. cc (h)
  text_step-Shorter ascii = next-Shorter (λ more. c ∷ more) s (omega arith)
  text_step-Shorter high =
      let step = decode_rune (c ∷ s) in
      elim (Bool-cases (is_invalid step)) [
        | inl refused ↦ rw (refused, text_step) (λ h. cc (h))
        | inr fine ↦
            rw (fine, text_step)
              (next-Shorter (λ more. (c ∷ take (step.1 - 1) s) ++ more) (drop (step.1 - 1) s)
                (omega (arith, length-drop (step.1 - 1) s)))
      ]

-- The loop has enough fuel in the length of the text, and takes the quote at least.
text_body-Shorter :
    (fuel : ℕ) (s : Bytes) → length s ≤ fuel → Ensures (Shorter s) (text_body fuel s)
unfolding text_body
text_body-Shorter fuel [] le = λ h. cc (h)
text_body-Shorter zero (c ∷ s) le = absurd (omega (arith, le))
text_body-Shorter (suc fuel) (c ∷ s) le =
    text_step-Shorter (text_body fuel) c s
      (λ t shorter. text_body-Shorter fuel t (omega (arith, le, shorter))) (class_of c)

pub parse_string-Shorter : (s : Bytes) → Ensures (Shorter s) (parse_string s)
unfolding parse_string
parse_string-Shorter [] = λ h. cc (h)
parse_string-Shorter (c ∷ s) = elim (Bool-cases (c == b'"')) [
  | inl quoted ↦
      rw (quoted, parse_string)
        (Ensures-weaken (text_body (length s) s) (text_body-Shorter (length s) s (omega arith))
          (λ w t h. omega arith))
  | inr bare ↦ rw (bare, parse_string) (λ h. cc (h))
]
