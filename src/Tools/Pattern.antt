-- ===== src/Tools/Pattern.antt =====
-- core/tools/pattern.go: the small regular-expression language of tool schemas, with the cost that a
-- pattern has when its counted repetitions are expanded. The parser's position is the text that is
-- left. The parser recurs through groups, so it runs on fuel: `out_of_fuel` belongs to the model only.
pub mod Leaves
pub mod Total
pub use serpe.Base.{ok, err, ◌>>=◌}
use serpe.Base.{
  Fallible, ℕ, zero, suc, ◌+◌, ◌-◌, ◌*◌, ◌/◌, ◌^◌, Bool, true, false, not, ◌&&◌, ◌||◌, Option, none,
  some, List, [], ◌∷◌, ◌==◌, nat_eq, ltb, leb, if◌then◌else◌, length, Bytes, codes, decode_rune,
  rune_error, is_control, valid_string, drop, bytes_eq, bytes_beq, ◌≡◌, refl,
}

abbrev pub max_regex_expanded : ℕ
max_regex_expanded = 65536

pub data PatternError : Type 0 where
  not_utf8 trailing_text budget_exceeded unterminated_group group_kind metacharacter : PatternError
  unmatched_parenthesis no_atom atom_missing control_character ends_with_backslash : PatternError
  not_punctuation unterminated_class negated_class open_in_class dash_in_class : PatternError
  missing_endpoint empty_class lazy_quantifier invalid_repetition unbounded_repetition :
      PatternError
  repetition_range out_of_fuel : PatternError

abbrev pub Result {ℓ} : Type ℓ → Type ℓ
Result A = Fallible PatternError A

-- A cost, or another number, and the text that is left.
abbrev pub Parsed : Type 0
Parsed = Result (ℕ × Bytes)

abbrev pub starts_with : ℕ → Bytes → Bool
starts_with c [] = false
starts_with c (d ∷ s) = d == c

abbrev pub backslash : ℕ
backslash = 92

unfoldable pub add_regex_cost : ℕ → ℕ → Result ℕ
add_regex_cost a b = if ltb max_regex_expanded (a + b) then err budget_exceeded else ok (a + b)

unfoldable pub mul_regex_cost : ℕ → ℕ → Result ℕ
mul_regex_cost a b =
    if not (a == 0) && ltb (max_regex_expanded / a) b then err budget_exceeded else ok (a * b)

unfoldable pub contains_byte : Bytes → ℕ → Bool
contains_byte [] b = false
contains_byte (c ∷ s) b = if c == b then true else contains_byte s b

abbrev pub punctuation : Bytes
punctuation = codes "\\\\.^$|?*+()[]{}-"

-- The text that follows the backslash.
unfoldable pub parse_escaped_punctuation : Bytes → Parsed
unfolding contains_byte
parse_escaped_punctuation [] = err ends_with_backslash
parse_escaped_punctuation (c ∷ s) =
    if leb 128 c || not (contains_byte punctuation c) then err not_punctuation else ok (c, s)

-- A rune that stands for itself.
unfoldable pub parse_rune : Bytes → Parsed
unfolding decode_rune is_control
parse_rune s =
    let (r, n) = decode_rune s in
    if r == rune_error && n == 1
    then err not_utf8
    else if is_control r
    then err control_character
    else ok (r, drop n s)

unfoldable pub parse_class_scalar : Bytes → Parsed
unfolding parse_escaped_punctuation parse_rune
parse_class_scalar [] = err unterminated_class
parse_class_scalar (c ∷ s) =
    if c == backslash then parse_escaped_punctuation s else parse_rune (c ∷ s)

-- What may follow a scalar of a class: a dash and the other end of a range.
unfoldable pub parse_range_end : ℕ → Bytes → Parsed
unfolding parse_class_scalar
parse_range_end items [] = ok (items, [])
parse_range_end items (c ∷ s) =
    if not (c == b'-')
    then ok (items, c ∷ s)
    else if s == [] || starts_with b']' s
    then err missing_endpoint
    else (parse_class_scalar s >>= λ (_, rest). ok (items + 1, rest))

-- The loop of `parseClass`.
unfoldable pub class_items : ℕ → ℕ → Bytes → Parsed
unfolding parse_range_end
class_items f items [] = err unterminated_class
class_items zero items (c ∷ s) = err out_of_fuel
class_items (suc f) items (c ∷ s) =
    if c == b']'
    then if items == 0 then err empty_class else ok (items + 1, s)
    else if c == b'['
    then err open_in_class
    else if c == b'-'
    then err dash_in_class
    else (parse_class_scalar (c ∷ s) >>= λ (_, after).
        parse_range_end (items + 1) after >>= λ (total, rest). class_items f total rest)

-- The text that follows the opening bracket.
unfoldable pub parse_class : Bytes → Parsed
unfolding class_items
parse_class s =
    if s == []
    then err unterminated_class
    else if starts_with b'^' s
    then err negated_class
    else class_items (length s) 0 s

unfoldable pub is_digit : ℕ → Bool
is_digit c = leb b'0' c && leb c b'9'

-- The digits at the front of a text: how many, their value, and what follows them.
unfoldable pub digits : ℕ → ℕ → Bytes → ℕ × ℕ × Bytes
unfolding is_digit
digits count n [] = (count, n, [])
digits count n (c ∷ s) =
    let more = digits (count + 1) (n * 10 + (c - b'0')) s in
    if is_digit c then more else (count, n, c ∷ s)

abbrev pub max_int : ℕ
max_int = 2 ^ 63 - 1

-- `none` when there is no digit; a number that `strconv.Atoi` refuses reads as one out of range.
unfoldable pub parse_decimal : Bytes → Option (ℕ × Bytes)
unfolding digits
parse_decimal s =
    let (count, n, rest) = digits 0 0 s in
    if count == 0 then none else some (if ltb max_int n then max_regex_expanded + 1 else n, rest)

-- From the closing brace of a counted repetition on.
unfoldable pub close_repetition : ℕ → ℕ → ℕ → Bytes → Parsed
unfolding mul_regex_cost add_regex_cost
close_repetition atom low high s =
    if not (starts_with b'}' s)
    then err invalid_repetition
    else if ltb 1000 low || ltb 1000 high || ltb high low
    then err repetition_range
    else if starts_with b'?' (drop 1 s)
    then err lazy_quantifier
    else (mul_regex_cost atom high >>= λ cost.
        add_regex_cost cost 1 >>= λ total. ok (total, drop 1 s))

-- The text that follows the opening brace.
unfoldable pub parse_repetition : ℕ → Bytes → Parsed
unfolding parse_decimal close_repetition
parse_repetition atom s = elim (parse_decimal s) [
  | none ↦ err invalid_repetition
  | some (low, after) ↦
      if starts_with b',' after
      then elim (parse_decimal (drop 1 after)) [
        | none ↦ err unbounded_repetition
        | some (high, rest) ↦ close_repetition atom low high rest
      ]
      else close_repetition atom low low after
]

unfoldable pub parse_quantifier : ℕ → Bytes → Parsed
unfolding parse_repetition add_regex_cost
parse_quantifier atom [] = ok (atom, [])
parse_quantifier atom (c ∷ s) =
    if c == b'?' || c == b'*' || c == b'+'
    then if starts_with b'?' s
      then err lazy_quantifier
      else (add_regex_cost atom 1 >>= λ cost. ok (cost, s))
    else if c == b'{'
    then parse_repetition atom s
    else ok (atom, c ∷ s)

-- The end of `parseExpr`; `none` is the stop byte 0.
unfoldable pub close_expr : Option ℕ → ℕ → Bytes → Parsed
close_expr none total s = ok (total, s)
close_expr (some stop) total s =
    if starts_with stop s then ok (total, drop 1 s) else err unterminated_group

abbrev pub is_stop : Option ℕ → ℕ → Bool
is_stop none c = false
is_stop (some stop) c = c == stop

-- The cases of `parseAtom` that do not recur, on a text that is not empty.
unfoldable pub parse_plain_atom : ℕ → Bytes → Parsed
unfolding parse_class parse_escaped_punctuation parse_rune
parse_plain_atom c s =
    if c == b'['
    then parse_class s
    else if c == backslash
    then (parse_escaped_punctuation s >>= λ (_, rest). ok (1, rest))
    else if c == b'.' || c == b'^' || c == b'$'
    then err metacharacter
    else if c == b')'
    then err unmatched_parenthesis
    else if c == b'*' || c == b'+' || c == b'?' || c == b'{' || c == b'}'
    then err no_atom
    else (parse_rune (c ∷ s) >>= λ (_, rest). ok (1, rest))

unfoldable mutual
  unfolding add_regex_cost close_expr parse_plain_atom parse_quantifier

  pub parse_expr : ℕ → Option ℕ → Bytes → Parsed
  parse_expr zero stop s = err out_of_fuel
  parse_expr (suc f) stop s = expr_loop f stop 1 s

  pub expr_loop : ℕ → Option ℕ → ℕ → Bytes → Parsed
  expr_loop zero stop total s = err out_of_fuel
  expr_loop (suc f) stop total s = parse_sequence f stop 1 s >>= λ (seq, after).
      add_regex_cost total seq >>= λ sum.
      (if starts_with b'|' after
        then (add_regex_cost sum 1 >>= λ more. expr_loop f stop more (drop 1 after))
        else close_expr stop sum after)

  pub parse_sequence : ℕ → Option ℕ → ℕ → Bytes → Parsed
  parse_sequence f stop total [] = ok (total, [])
  parse_sequence zero stop total (c ∷ s) = err out_of_fuel
  parse_sequence (suc f) stop total (c ∷ s) =
      if c == b'|' || is_stop stop c
      then ok (total, c ∷ s)
      else (parse_atom f c s >>= λ (atom, after). parse_quantifier atom after >>= λ (cost, rest).
          add_regex_cost total cost >>= λ sum. parse_sequence f stop sum rest)

  -- `parseAtom` on the text `c ∷ s`.
  pub parse_atom : ℕ → ℕ → Bytes → Parsed
  parse_atom zero c s = err out_of_fuel
  parse_atom (suc f) c s =
      if c == b'('
      then if starts_with b'?' s
        then err group_kind
        else (parse_expr f (some b')') s >>= λ (cost, rest).
            add_regex_cost cost 1 >>= λ total. ok (total, rest))
      else parse_plain_atom c s

-- Enough fuel for a text: each group takes four calls.
abbrev pub pattern_fuel : Bytes → ℕ
pattern_fuel s = 4 * length s + 3

-- The cost of an accepted pattern.
unfoldable pub validate_portable_pattern : Bytes → Result ℕ
unfolding valid_string parse_expr
validate_portable_pattern pattern_ =
    if not (valid_string pattern_)
    then err not_utf8
    else (parse_expr (pattern_fuel pattern_) none pattern_ >>= λ (cost, rest).
        if not (rest == [])
        then err trailing_text
        else if ltb max_regex_expanded cost
        then err budget_exceeded
        else ok cost)

counted : validate_portable_pattern (codes "(ab|c){2,3}[a-z]+\\.") ≡ ok 32
unfolding validate_portable_pattern bytes_beq
counted = refl
