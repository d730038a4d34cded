-- ===== src/Json/Text.antt =====
-- The strings of internal/jsonvalue/parse.go: parseString, decodeEscape, decodeUnicode and parseHex4.
-- The index of the parser is the text that is left. A string is read on fuel.
use serpe.Base.{
  in_range, ℕ, zero, suc, ◌+◌, ◌*◌, ◌-◌, ◌/◌, ◌%◌, Bool, not, ◌&&◌, ◌||◌, Option, none, some, [],
  ◌∷◌, ◌++◌, ◌==◌, nat_eq, ltb, if◌then◌else◌, Bytes, decode_rune, rune_error, take, drop, length,
}
use serpe.Json.{
  Outcome, done, failed, ◌>>=◌, map_outcome, unterminated_string, unterminated_escape,
  control_character, invalid_utf8, invalid_escape, invalid_unicode, unpaired_surrogate, exhausted,
  string_expected,
}

abbrev pub is_digit : ℕ → Bool
is_digit c = in_range b'0' b'9' c

abbrev pub hex_value : ℕ → Option ℕ
hex_value c =
    if is_digit c
    then some (c - b'0')
    else if in_range b'a' b'f' c
    then some (c - b'a' + 10)
    else if in_range b'A' b'F' c
    then some (c - b'A' + 10)
    else none

-- The loop of `parseHex4` over the digits that are missing.
unfoldable pub hex_digits : ℕ → ℕ → Bytes → Outcome ℕ
hex_digits zero r s = done r s
hex_digits (suc k) r [] = failed invalid_unicode
hex_digits (suc k) r (c ∷ s) = elim (hex_value c) [
  | none ↦ failed invalid_unicode
  | some v ↦ hex_digits k (r * 16 + v) s
]

-- `parseHex4` at the front of the text.
unfoldable pub parse_hex4 : Bytes → Outcome ℕ
unfolding hex_digits
parse_hex4 s = hex_digits 4 0 s

-- `utf16.DecodeRune` of a high surrogate.
abbrev surrogate_pair : ℕ → ℕ → ℕ
surrogate_pair high low =
    if in_range 0xdc00 0xdfff low
    then (high - 0xd800) * 1024 + (low - 0xdc00) + 0x10000
    else rune_error

-- The second half of a pair: `\u` and four digits.
unfoldable pub low_surrogate : ℕ → Bytes → Outcome ℕ
unfolding parse_hex4
low_surrogate high (b ∷ u ∷ s) =
    if ltb (length s) 4 || not (b == b'\\' && u == b'u')
    then failed unpaired_surrogate
    else parse_hex4 s >>= λ low rest.
        (let pair = surrogate_pair high low in
          if pair == rune_error then failed unpaired_surrogate else done pair rest)
low_surrogate high _ = failed unpaired_surrogate

-- `decodeUnicode` behind the `u`.
unfoldable pub decode_unicode : Bytes → Outcome ℕ
unfolding parse_hex4 low_surrogate
decode_unicode s = parse_hex4 s >>= λ r rest.
    (if in_range 0xdc00 0xdfff r
      then failed unpaired_surrogate
      else if in_range 0xd800 0xdbff r
      then low_surrogate r rest
      else done r rest)

-- `utf8.EncodeRune` of a rune that is no surrogate.
unfoldable pub encode_rune : ℕ → Bytes
encode_rune r =
    if ltb r 0x80
    then r ∷ []
    else if ltb r 0x800
    then (0xc0 + r / 64) ∷ (0x80 + r % 64) ∷ []
    else if ltb r 0x10000
    then (0xe0 + r / 4096) ∷ (0x80 + r / 64 % 64) ∷ (0x80 + r % 64) ∷ []
    else (0xf0 + r / 262144) ∷ (0x80 + r / 4096 % 64) ∷ (0x80 + r / 64 % 64) ∷ (0x80 + r % 64) ∷ []

pub data Escape : Type 0 where
  byte : ℕ → Escape
  unicode unknown : Escape

abbrev pub escape_of : ℕ → Escape
escape_of c =
    if c == b'"' || c == b'\\' || c == b'/'
    then byte c
    else if c == b'b'
    then byte 8
    else if c == b'f'
    then byte 12
    else if c == b'n'
    then byte 10
    else if c == b'r'
    then byte 13
    else if c == b't'
    then byte 9
    else if c == b'u'
    then unicode
    else unknown

unfoldable pub read_escape : Escape → Bytes → Outcome Bytes
unfolding decode_unicode encode_rune
read_escape (byte b) s = done (b ∷ []) s
read_escape unicode s = map_outcome encode_rune (decode_unicode s)
read_escape unknown s = failed invalid_escape

-- `decodeEscape` behind the backslash.
unfoldable pub decode_escape : Bytes → Outcome Bytes
unfolding read_escape
decode_escape [] = failed unterminated_escape
decode_escape (c ∷ s) = read_escape (escape_of c) s

pub data ByteClass : Type 0 where
  quote backslash control ascii high : ByteClass

abbrev pub class_of : ℕ → ByteClass
class_of c =
    if c == b'"'
    then quote
    else if c == b'\\'
    then backslash
    else if ltb c 0x20
    then control
    else if ltb c 0x80
    then ascii
    else high

abbrev pub is_invalid : ℕ × ℕ → Bool
is_invalid step = step.0 == rune_error && step.1 == 1

-- One round of the loop of `parseString` at the byte `c`; `next` reads on.
unfoldable pub text_step : ByteClass → (Bytes → Outcome Bytes) → ℕ → Bytes → Outcome Bytes
unfolding decode_escape decode_rune
text_step quote next c s = done [] s
text_step backslash next c s =
    decode_escape s >>= λ bytes rest. map_outcome (λ more. bytes ++ more) (next rest)
text_step control next c s = failed control_character
text_step ascii next c s = map_outcome (λ more. c ∷ more) (next s)
text_step high next c s =
    let step = decode_rune (c ∷ s) in
    if is_invalid step
    then failed invalid_utf8
    else map_outcome (λ more. (c ∷ take (step.1 - 1) s) ++ more) (next (drop (step.1 - 1) s))

-- The loop, behind the opening quote.
unfoldable pub text_body : ℕ → Bytes → Outcome Bytes
unfolding text_step
text_body fuel [] = failed unterminated_string
text_body zero (c ∷ s) = failed exhausted
text_body (suc fuel) (c ∷ s) = text_step (class_of c) (text_body fuel) c s

-- Every round takes a byte at least, so the length is enough fuel.
unfoldable pub parse_string : Bytes → Outcome Bytes
unfolding text_body
parse_string [] = failed string_expected
parse_string (c ∷ s) = if c == b'"' then text_body (length s) s else failed string_expected
