-- ===== src/Json/Number.antt =====
-- parseNumber of internal/jsonvalue/parse.go: the lexeme of a number with the digits of its fraction and
-- its exponent. Where the code subtracts the digits of the fraction from the exponent and compares
-- signed numbers, the model compares sums.
use serpe.Base.{
  ℕ, ◌+◌, ◌*◌, ◌-◌, Bool, true, false, ◌&&◌, ◌||◌, not, [], ◌∷◌, ◌++◌, ◌==◌, nat_eq, ltb,
  if◌then◌else◌, Bytes, length,
}
use serpe.Json.{
  Limits, Outcome, done, failed, ◌>>=◌, map_outcome, invalid_number, exponent_budget, lexeme_budget,
  scale_budget,
}
use serpe.Json.Text.{is_digit}

-- The longest run of digits.
unfoldable pub digits_of : Bytes → Bytes
digits_of [] = []
digits_of (c ∷ s) = let rest = digits_of s in if is_digit c then c ∷ rest else []

unfoldable pub behind_digits : Bytes → Bytes
behind_digits [] = []
behind_digits (c ∷ s) = let rest = behind_digits s in if is_digit c then rest else c ∷ s

abbrev pub starts_with_digit : Bytes → Bool
starts_with_digit [] = false
starts_with_digit (c ∷ s) = is_digit c

-- A run of digits that is not empty.
unfoldable pub some_digits : Bytes → Outcome Bytes
unfolding digits_of behind_digits
some_digits s =
    if starts_with_digit s then done (digits_of s) (behind_digits s) else failed invalid_number

unfoldable pub sign_part : Bytes → Outcome Bytes
sign_part [] = done [] []
sign_part (c ∷ s) =
    if not (c == b'-')
    then done [] (c ∷ s)
    else if starts_with_digit s
    then done (c ∷ []) s
    else failed invalid_number

unfoldable pub integer_part : Bytes → Outcome Bytes
unfolding some_digits
integer_part [] = failed invalid_number
integer_part (c ∷ s) =
    if c == b'0'
    then (if starts_with_digit s then failed invalid_number else done (c ∷ []) s)
    else some_digits (c ∷ s)

-- The point with the digits behind it, or nothing.
unfoldable pub fraction_part : Bytes → Outcome Bytes
unfolding some_digits
fraction_part [] = done [] []
fraction_part (c ∷ s) =
    if c == b'.' then map_outcome (λ digits. c ∷ digits) (some_digits s) else done [] (c ∷ s)

pub record Exponent : Type 0 where
  pub text : Bytes
  pub magnitude : ℕ
  pub is_negative : Bool
  pub is_seen : Bool

abbrev no_exponent : Exponent
no_exponent = record { text = []; magnitude = 0; is_negative = false; is_seen = false }

-- The digits of an exponent with their value.
unfoldable pub exponent_digits : ℕ → Bytes → Outcome (Bytes × ℕ)
exponent_digits acc [] = done ([], acc) []
exponent_digits acc (c ∷ s) =
    let rest = exponent_digits (acc * 10 + (c - b'0')) s in
    if not (is_digit c)
    then done ([], acc) (c ∷ s)
    else if ltb 107374182 acc
    then failed exponent_budget
    else map_outcome (λ read. (c ∷ read.0, read.1)) rest

unfoldable pub signed_digits : ℕ → Bytes → Bool → Bytes → Outcome Exponent
unfolding exponent_digits
signed_digits mark sign negative s =
    if not (starts_with_digit s)
    then failed invalid_number
    else map_outcome
        (λ read. record {
          text = mark ∷ (sign ++ read.0);
          magnitude = read.1;
          is_negative = negative;
          is_seen = true;
        })
        (exponent_digits 0 s)

unfoldable pub behind_mark : ℕ → Bytes → Outcome Exponent
unfolding signed_digits
behind_mark mark [] = failed invalid_number
behind_mark mark (c ∷ s) =
    if c == b'+' || c == b'-'
    then signed_digits mark (c ∷ []) (c == b'-') s
    else signed_digits mark [] false (c ∷ s)

unfoldable pub exponent_part : Bytes → Outcome Exponent
unfolding behind_mark
exponent_part [] = done no_exponent []
exponent_part (c ∷ s) = if c == b'e' || c == b'E' then behind_mark c s else done no_exponent (c ∷ s)

-- The budgets of a lexeme; `fraction` counts the digits behind the point.
unfoldable pub check_lexeme : Limits ℕ → Bytes → ℕ → Exponent → Bytes → Outcome Bytes
check_lexeme l lexeme fraction e rest =
    if ltb l.max_number_bytes (length lexeme)
    then failed lexeme_budget
    else if e.is_seen && ltb l.max_exponent e.magnitude
    then failed exponent_budget
    else if (if e.is_negative
        then ltb l.max_scale (e.magnitude + fraction)
        else ltb (l.max_scale + fraction) e.magnitude || ltb (e.magnitude + l.max_scale) fraction)
    then failed scale_budget
    else done lexeme rest

unfoldable pub parse_number : Limits ℕ → Bytes → Outcome Bytes
unfolding sign_part integer_part fraction_part exponent_part check_lexeme
parse_number l s = sign_part s >>= λ sign s. integer_part s >>= λ int s.
    fraction_part s >>= λ fraction s. exponent_part s >>= λ e s.
    check_lexeme l (sign ++ int ++ fraction ++ e.text) (length fraction - 1) e s
