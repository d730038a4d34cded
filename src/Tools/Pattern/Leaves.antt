-- ===== src/Tools/Pattern/Leaves.antt =====
-- How much text the functions of the parser of core/tools/pattern.go leave, from a rune to an atom
-- that stands for itself.
use serpe.Base.{
  ℕ, zero, suc, ◌+◌, ◌-◌, ◌*◌, ◌≤◌, Bool, true, false, ◌||◌, some, [], ◌∷◌, ◌==◌, ◌≡◌, refl, nat_eq,
  ltb, length, length-drop, Bytes, decode_rune, decode_rune_width, drop, arith, bytes_eq,
  Bool-cases, Option-cases, inl, inr,
}
use serpe.Tools.Pattern.{
  PatternError, out_of_fuel, ok, err, Parsed, ◌>>=◌, add_regex_cost, mul_regex_cost,
  max_regex_expanded, parse_escaped_punctuation, parse_rune, parse_class_scalar, parse_range_end,
  class_items, parse_class, digits, parse_decimal, close_repetition, parse_repetition,
  parse_quantifier, parse_plain_atom, starts_with, backslash,
}

abbrev is_fuel : PatternError → Bool
is_fuel out_of_fuel = true
is_fuel _ = false

-- The parser has not run out of fuel, and leaves at most `n` bytes.
abbrev pub Ends : ℕ → Parsed → Type 0
Ends n (ok (c, s)) = length s ≤ n
Ends n (err e) = is_fuel e ≡ false

pub Ends-weaken : (m n : ℕ) (r : Parsed) → m ≤ n → Ends m r → Ends n r
Ends-weaken m n (ok (c, s)) le h = omega arith
Ends-weaken m n (err e) le h = h

pub Ends-bind :
    (m n : ℕ) (r : Parsed) (f : ℕ × Bytes → Parsed)
    → Ends m r
    → ((c : ℕ) (s : Bytes) → length s ≤ m → Ends n (f (c, s)))
    → Ends n (r >>= f)
Ends-bind m n (ok (c, s)) f h k = k c s h
Ends-bind m n (err e) f h k = h

pub add_regex_cost-Ends :
    (n a b : ℕ) (f : ℕ → Parsed) → ((c : ℕ) → Ends n (f c)) → Ends n (add_regex_cost a b >>= f)
unfolding add_regex_cost
add_regex_cost-Ends n a b f h = elim (Bool-cases (ltb max_regex_expanded (a + b))) [
  | inl over ↦ rw over refl
  | inr fits ↦ rw fits (h (a + b))
]

escaped-Ends : (s : Bytes) → Ends (length s - 1) (parse_escaped_punctuation s)
unfolding parse_escaped_punctuation
escaped-Ends [] = refl
escaped-Ends (c ∷ s) = ground arith

parse_rune-Ends : (c : ℕ) (s : Bytes) → Ends (length s) (parse_rune (c ∷ s))
unfolding parse_rune
parse_rune-Ends c s =
    let (r, n) = decode_rune (c ∷ s) in ground (arith, decode_rune_width c s, length-drop n (c ∷ s))

scalar-Ends : (s : Bytes) → Ends (length s - 1) (parse_class_scalar s)
unfolding parse_class_scalar
scalar-Ends [] = refl
scalar-Ends (c ∷ s) = elim (Bool-cases (c == backslash)) [
  | inl escape ↦ rw escape (
      Ends-weaken (length s - 1) (length (c ∷ s) - 1) (parse_escaped_punctuation s) (omega arith)
        (escaped-Ends s))
  | inr plain ↦ rw plain (
      Ends-weaken (length s) (length (c ∷ s) - 1) (parse_rune (c ∷ s)) (omega arith)
        (parse_rune-Ends c s))
]

parse_range_end-Ends : (items : ℕ) (s : Bytes) → Ends (length s) (parse_range_end items s)
unfolding parse_range_end
parse_range_end-Ends items [] = omega arith
parse_range_end-Ends items (c ∷ s) = elim (Bool-cases (c == b'-')) [
  | inr other ↦ rw other (omega arith)
  | inl dash ↦ rw dash (elim (Bool-cases (s == [] || starts_with b']' s)) [
    | inl missing ↦ rw missing refl
    | inr present ↦ rw present (
        Ends-bind (length s - 1) (length (c ∷ s)) (parse_class_scalar s)
          (λ (_, rest). ok (items + 1, rest)) (scalar-Ends s) (λ _ rest le. omega arith))
  ])
]

class_items-Ends :
    (f items : ℕ) (s : Bytes) → length s ≤ f → Ends (length s - 1) (class_items f items s)
unfolding class_items
class_items-Ends f items [] le = refl
class_items-Ends zero items (c ∷ s) le = absurd (omega arith)
class_items-Ends (suc f) items (c ∷ s) le = elim (Bool-cases (c == b']')) [
  | inl close ↦ rw close (ground arith)
  | inr more ↦ rw more (elim (Bool-cases (c == b'[')) [
    | inl open_ ↦ rw open_ refl
    | inr inside ↦ rw inside (elim (Bool-cases (c == b'-')) [
      | inl dash ↦ rw dash refl
      | inr scalar ↦ rw scalar (
          Ends-bind (length (c ∷ s) - 1) (length (c ∷ s) - 1) (parse_class_scalar (c ∷ s)) _
            (scalar-Ends (c ∷ s))
            (λ _ after short.
              Ends-bind (length after) (length (c ∷ s) - 1) (parse_range_end (items + 1) after) _
                (parse_range_end-Ends (items + 1) after)
                (λ total rest shorter.
                  Ends-weaken (length rest - 1) (length (c ∷ s) - 1) (class_items f total rest)
                    (omega arith) (class_items-Ends f total rest (omega arith)))))
    ])
  ])
]

parse_class-Ends : (s : Bytes) → Ends (length s) (parse_class s)
unfolding parse_class
parse_class-Ends s = elim (Bool-cases (s == [])) [
  | inl empty ↦ rw empty refl
  | inr full ↦ rw full (elim (Bool-cases (starts_with b'^' s)) [
    | inl negated ↦ rw negated refl
    | inr plain ↦ rw plain (
        Ends-weaken (length s - 1) (length s) (class_items (length s) 0 s) (omega arith)
          (class_items-Ends (length s) 0 s (omega arith)))
  ])
]

digits-shorter : (count n : ℕ) (s : Bytes) → length (digits count n s).2 ≤ length s
unfolding digits
digits-shorter count n [] = omega arith
digits-shorter count n (c ∷ s) = ground (arith, digits-shorter (count + 1) (n * 10 + (c - b'0')) s)

parse_decimal-shorter :
    (s rest : Bytes) (n : ℕ) → parse_decimal s ≡ some (n, rest) → length rest ≤ length s
unfolding parse_decimal
parse_decimal-shorter s rest n h = let short = digits-shorter 0 0 s in ground arith

close_repetition-Ends :
    (atom low high : ℕ) (s : Bytes) → Ends (length s) (close_repetition atom low high s)
unfolding close_repetition mul_regex_cost add_regex_cost
close_repetition-Ends atom low high s = ground (arith, length-drop 1 s)

parse_repetition-Ends : (atom : ℕ) (s : Bytes) → Ends (length s) (parse_repetition atom s)
unfolding parse_repetition
parse_repetition-Ends atom s = elim (Option-cases (parse_decimal s)) [
  | inl missing ↦ rw (missing, Ends) refl
  | inr ((low, after), found) ↦
      rw (found, Ends)
        (elim (Bool-cases (starts_with b',' after)) [
          | inr single ↦ rw single (
              Ends-weaken (length after) (length s) (close_repetition atom low low after)
                (parse_decimal-shorter s after low found)
                (close_repetition-Ends atom low low after))
          | inl range ↦ rw range (elim (Option-cases (parse_decimal (drop 1 after))) [
            | inl unbounded ↦ rw unbounded refl
            | inr ((high, rest), bounded) ↦ rw bounded (
                Ends-weaken (length rest) (length s) (close_repetition atom low high rest)
                  (omega (
                    arith,
                    parse_decimal-shorter s after low found,
                    length-drop 1 after,
                    parse_decimal-shorter (drop 1 after) rest high bounded,
                  ))
                  (close_repetition-Ends atom low high rest))
          ])
        ])
]

pub parse_quantifier-Ends : (atom : ℕ) (s : Bytes) → Ends (length s) (parse_quantifier atom s)
unfolding parse_quantifier
parse_quantifier-Ends atom [] = omega arith
parse_quantifier-Ends atom (c ∷ s) = elim (Bool-cases (c == b'?' || c == b'*' || c == b'+')) [
  | inl simple ↦ rw simple (elim (Bool-cases (starts_with b'?' s)) [
    | inl lazy ↦ rw lazy refl
    | inr greedy ↦
        rw greedy
          (add_regex_cost-Ends (length (c ∷ s)) atom 1 (λ cost. ok (cost, s)) (λ _. omega arith))
  ])
  | inr other ↦ rw other (elim (Bool-cases (c == b'{')) [
    | inl counted ↦ rw counted (
        Ends-weaken (length s) (length (c ∷ s)) (parse_repetition atom s) (omega arith)
          (parse_repetition-Ends atom s))
    | inr bare ↦ rw bare (omega arith)
  ])
]

-- One byte of an atom that stands for itself.
single-Ends : (n : ℕ) (r : Parsed) → Ends n r → Ends n (r >>= λ (_, rest). ok (1, rest))
single-Ends n (ok (c, s)) h = h
single-Ends n (err e) h = h

pub parse_plain_atom-Ends : (c : ℕ) (s : Bytes) → Ends (length s) (parse_plain_atom c s)
unfolding parse_plain_atom
parse_plain_atom-Ends c s = elim (Bool-cases (c == b'[')) [
  | inl class ↦ rw class (parse_class-Ends s)
  | inr k ↦ rw k (elim (Bool-cases (c == backslash)) [
    | inl escape ↦ rw escape (
        single-Ends (length s) (parse_escaped_punctuation s) (
          Ends-weaken (length s - 1) (length s) (parse_escaped_punctuation s) (omega arith)
            (escaped-Ends s)))
    | inr k ↦ rw k (elim (Bool-cases (c == b'.' || c == b'^' || c == b'$')) [
      | inl meta ↦ rw meta refl
      | inr k ↦ rw k (elim (Bool-cases (c == b')')) [
        | inl unmatched ↦ rw unmatched refl
        | inr k ↦
            rw k
              (elim (Bool-cases (c == b'*' || c == b'+' || c == b'?' || c == b'{' || c == b'}')) [
                | inl quantifier ↦ rw quantifier refl
                | inr k ↦ rw k (single-Ends (length s) (parse_rune (c ∷ s)) (parse_rune-Ends c s))
              ])
      ])
    ])
  ])
]
