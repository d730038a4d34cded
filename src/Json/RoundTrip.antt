-- ===== src/Json/RoundTrip.antt =====
-- A string of internal/jsonvalue that is written is read again.
use serpe.Base.{
  in_range, ℕ, zero, suc, ◌+◌, ◌-◌, ◌*◌, ◌/◌, ◌%◌, ◌≤◌, ◌<◌, ◌≡◌, refl, ap, ◌∙◌, inl, inr, true,
  false, ◌||◌, some, [], ◌∷◌, ◌++◌, ◌==◌, nat_eq, ==_iff, ltb, length, length-append, length-drop,
  take, drop, Bytes, arith, Bool-cases, decode_rune, all_runes_fuel, all_runes, valid_string,
}
use mathlib.Core.List.{append_assoc}
use serpe.Json.{done, map_outcome}
use serpe.Json.Text.{
  hex_digits, hex_value, parse_hex4, decode_unicode, encode_rune, byte, escape_of, read_escape,
  decode_escape, ascii, high, class_of, is_invalid, text_step, text_body, parse_string,
}
use serpe.Json.Write.{hex_digit, escape_byte, escape_text, write_json_string}
use serpe.Json.Runes.{escape_high, rune-Front, is_valid, valid_step}

hex_value-hex_digit : (n : ℕ) → n < 16 → hex_value (hex_digit n) ≡ some n
hex_value-hex_digit n h = ground arith

hex_digits-step :
    (k r c v : ℕ) (s : Bytes)
    → hex_value c ≡ some v
    → hex_digits (suc k) r (c ∷ s) ≡ hex_digits k (r * 16 + v) s
unfolding hex_digits
hex_digits-step k r c v s h = rw (h, hex_digits) refl

control_hex :
    (a : ℕ) (t : Bytes)
    → a < 0x20
    → parse_hex4 (b'0' ∷ b'0' ∷ hex_digit (a / 16) ∷ hex_digit (a % 16) ∷ t) ≡ done a t
unfolding parse_hex4 hex_digits
control_hex a t h =
    hex_digits-step 1 0 (hex_digit (a / 16)) (a / 16) (hex_digit (a % 16) ∷ t)
      (hex_value-hex_digit (a / 16) (omega arith))
    ∙ hex_digits-step 0 (0 * 16 + a / 16) (hex_digit (a % 16)) (a % 16) t
        (hex_value-hex_digit (a % 16) (omega arith))
    ∙ ap (λ (n : ℕ). done n t) (omega arith)

control_escape :
    (a : ℕ) (t : Bytes)
    → a < 0x20
    → decode_escape (b'u' ∷ b'0' ∷ b'0' ∷ hex_digit (a / 16) ∷ hex_digit (a % 16) ∷ t)
      ≡ done (a ∷ []) t
unfolding decode_escape read_escape decode_unicode encode_rune
control_escape a t h =
    let not_low : in_range 0xdc00 0xdfff a ≡ false = ground arith in
    let not_high : in_range 0xd800 0xdbff a ≡ false = ground arith in
    let short : ltb a 0x80 ≡ true = ground arith in
    rw (control_hex a t h, read_escape, decode_unicode, not_low, not_high, encode_rune, short) refl

-- A byte below 0x80 that is written is read as itself.
module _ (fuel a : ℕ) (t : Bytes) (low : a < 0x80) where
  abbrev Again : Bytes → Type 0
  Again written =
      text_body (suc fuel) (written ++ t) ≡ map_outcome (λ more. a ∷ more) (text_body fuel t)

  escaped : (e : Bytes) → decode_escape (e ++ t) ≡ done (a ∷ []) t → Again (b'\\' ∷ e)
  unfolding text_body text_step
  escaped e h = rw (h, text_step) refl

  -- An escape of one letter for a certain byte.
  named : (c b : ℕ) → escape_of c ≡ byte b → a ≡ b → Again (b'\\' ∷ c ∷ [])
  unfolding decode_escape read_escape
  named c b e same = escaped (c ∷ []) (rw (e, read_escape, same) refl)

  plain : class_of a ≡ ascii → Again (a ∷ [])
  unfolding text_body text_step
  plain h = rw (h, text_step) refl

  escape_byte-Again : Again (escape_byte a)
  unfolding escape_byte
  escape_byte-Again = elim (Bool-cases (a == b'"' || a == b'\\')) [
    | inl special ↦ rw (special, escape_byte) (named a a (ground arith) refl)
    | inr h₁ ↦ elim (Bool-cases (a == 8)) [
      | inl is ↦ rw (h₁, is, escape_byte) (named b'b' 8 refl ((==_iff a 8).0 is))
      | inr h₂ ↦ elim (Bool-cases (a == 12)) [
        | inl is ↦ rw (h₁, h₂, is, escape_byte) (named b'f' 12 refl ((==_iff a 12).0 is))
        | inr h₃ ↦ elim (Bool-cases (a == 10)) [
          | inl is ↦ rw (h₁, h₂, h₃, is, escape_byte) (named b'n' 10 refl ((==_iff a 10).0 is))
          | inr h₄ ↦ elim (Bool-cases (a == 13)) [
            | inl is ↦
                rw (h₁, h₂, h₃, h₄, is, escape_byte) (named b'r' 13 refl ((==_iff a 13).0 is))
            | inr h₅ ↦ elim (Bool-cases (a == 9)) [
              | inl is ↦
                  rw (h₁, h₂, h₃, h₄, h₅, is, escape_byte) (named b't' 9 refl ((==_iff a 9).0 is))
              | inr h₆ ↦ elim (Bool-cases (ltb a 0x20)) [
                | inl is ↦
                    rw (h₁, h₂, h₃, h₄, h₅, h₆, is, escape_byte)
                      (escaped (b'u' ∷ b'0' ∷ b'0' ∷ hex_digit (a / 16) ∷ hex_digit (a % 16) ∷ [])
                        (control_escape a t (ground arith)))
                | inr not_control ↦
                    rw (h₁, h₂, h₃, h₄, h₅, h₆, not_control, escape_byte) (plain (ground arith))
              ]
            ]
          ]
        ]
      ]
    ]
  ]

take-drop : (n : ℕ) (s : Bytes) → take n s ++ drop n s ≡ s
take-drop zero s = refl
take-drop (suc n) [] = refl
take-drop (suc n) (c ∷ s) = ap (λ (t : Bytes). c ∷ t) (take-drop n s)

-- A rune of several bytes that is written is read as itself.
high_rune :
    (fuel a : ℕ) (s t : Bytes)
    → 0x80 ≤ a
    → is_invalid (decode_rune (a ∷ s)) ≡ false
    → (let w = (decode_rune (a ∷ s)).1 - 1 in
        text_body (suc fuel) (a ∷ (escape_text s ++ t))
        ≡ map_outcome
            (λ more. (a ∷ take w s) ++ more)
            (text_body fuel (escape_text (drop w s) ++ t)))
unfolding text_body text_step
high_rune fuel a s t le valid =
    let front = rune-Front a s t le valid in
    let high_class : class_of a ≡ high = ground arith in
    rw (high_class, text_step, front.same, valid, front.taken, front.left) refl

text_body-escape_text :
    (g fuel : ℕ) (s rest : Bytes)
    → all_runes_fuel g is_valid s ≡ true
    → length s < fuel
    → text_body fuel (escape_text s ++ b'"' ∷ rest) ≡ done s rest
unfolding escape_text
text_body-escape_text g zero s rest h le = absurd (omega (arith, le))
text_body-escape_text g (suc fuel) [] rest h le = unfold text_body text_step in refl
text_body-escape_text zero (suc fuel) (a ∷ s) rest h le = unfold all_runes_fuel in absurd (cc (h))
text_body-escape_text (suc g) (suc fuel) (a ∷ s) rest h le =
    let t = b'"' ∷ rest in
    let (fine, more) = valid_step g a s h in
    elim (Bool-cases (ltb a 0x80)) [
      | inl low ↦
          let one : (decode_rune (a ∷ s)).1 ≡ 1 = unfold decode_rune in rw low refl in
          let again = text_body-escape_text g fuel s rest (rw one at more) (omega (arith, le)) in
          rw append_assoc (
            escape_byte-Again fuel a (escape_text s ++ t) (ground arith)
            ∙ ap (map_outcome (λ more. a ∷ more)) again)
      | inr upper ↦
          let w = (decode_rune (a ∷ s)).1 - 1 in
          let again =
            text_body-escape_text g fuel (drop w s) rest more
              (omega (arith, le, length-drop w s)) in
          rw (escape_high a (ground arith)) (
            high_rune fuel a s t (ground arith) fine
            ∙ ap (map_outcome (λ more. (a ∷ take w s) ++ more)) again
            ∙ ap (λ (u : Bytes). done (a ∷ u) rest) (take-drop w s))
    ]

length-escape_byte : (a : ℕ) → 1 ≤ length (escape_byte a)
unfolding escape_byte
length-escape_byte a = ground arith

length-escape_text : (s : Bytes) → length s ≤ length (escape_text s)
unfolding escape_text
length-escape_text [] = omega arith
length-escape_text (a ∷ s) = omega (
  arith,
  length-append (escape_byte a) (escape_text s),
  length-escape_byte a,
  length-escape_text s,
)

-- A string of valid UTF-8 that is written as JSON is read again, whatever stands behind it: with every
-- byte as it was, and with the rest of the text left over.
pub parse_string-write_json_string :
    (s rest : Bytes)
    → valid_string s ≡ true
    → parse_string (write_json_string s ++ rest) ≡ done s rest
unfolding parse_string write_json_string valid_string all_runes
parse_string-write_json_string s rest valid = rw append_assoc (
    text_body-escape_text (length s) (length (escape_text s ++ b'"' ∷ rest)) s rest valid
      (omega (arith, length-escape_text s, length-append (escape_text s) (b'"' ∷ rest))))
