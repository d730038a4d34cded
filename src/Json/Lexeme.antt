-- ===== src/Json/Lexeme.antt =====
-- The numbers of internal/jsonvalue/parse.go: a lexeme is a front part of the text that keeps to its
-- budget.
use serpe.Base.{
  ℕ, ◌≤◌, ◌≡◌, refl, ap, sym, subst, ◌∙◌, ◌⊎◌, ==_iff, ◌&&◌, All, if◌then◌else◌, inl, inr, Bool,
  true, false, not, [], ◌∷◌, ◌++◌, ◌==◌, ◌||◌, ◌+◌, ◌*◌, ◌-◌, length, ltb, length-append, Bytes,
  arith, Bool-cases, nat_eq,
}
use mathlib.Core.List.{append_assoc}
use serpe.Json.{Limits}
use serpe.Json.Text.{is_digit}
use serpe.Json.Number.{
  digits_of, behind_digits, starts_with_digit, some_digits, sign_part, integer_part, fraction_part,
  Exponent, exponent_digits, signed_digits, behind_mark, exponent_part, check_lexeme, parse_number,
}
use serpe.Json.Ensures.{Ensures, Ensures-bind, Ensures-map, Ensures-weaken, Splits}

abbrev pub AreDigits : Bytes → Type 0
AreDigits = All (λ c. is_digit c ≡ true)

-- The value of digits behind a number that has been read.
abbrev pub decimal : ℕ → Bytes → ℕ
decimal acc [] = acc
decimal acc (c ∷ s) = decimal (acc * 10 + (c - b'0')) s

-- No sign, a plus or a minus.
abbrev pub IsSign : Bytes → Type 0
IsSign [] = Unit
IsSign (c ∷ []) = (c == b'+' || c == b'-') ≡ true
IsSign (c ∷ d ∷ s) = ⊥

abbrev pub is_minus : Bytes → Bool
is_minus [] = false
is_minus (c ∷ s) = c == b'-'

abbrev pub IsFraction : Bytes → Type 0
IsFraction [] = Unit
IsFraction (c ∷ s) = ((c == b'.') ≡ true) × AreDigits s

-- The exponent of a text: none, or a mark with a sign and digits, and their value.
pub record IsMarked (text : Bytes) (magnitude : ℕ) (negative : Bool) : Type 0 where
  pub mark : ℕ
  pub sign : Bytes
  pub digits : Bytes
  pub written : text ≡ mark ∷ (sign ++ digits)
  pub is_mark : (mark == b'e' || mark == b'E') ≡ true
  pub one_sign : IsSign sign
  pub all_digits : AreDigits digits
  pub value : magnitude ≡ decimal 0 digits
  pub below_zero : negative ≡ is_minus sign

abbrev pub IsExponent : Bytes → ℕ → Bool → Type 0
IsExponent text magnitude negative =
    ((text ≡ []) × (magnitude ≡ 0) × (negative ≡ false)) ⊎ IsMarked text magnitude negative

digits_split : (s : Bytes) → digits_of s ++ behind_digits s ≡ s
unfolding digits_of behind_digits
digits_split [] = refl
digits_split (c ∷ s) = elim (Bool-cases (is_digit c)) [
  | inl digit ↦ rw (digit, digits_of, behind_digits) (ap (λ (t : Bytes). c ∷ t) (digits_split s))
  | inr other ↦ rw (other, digits_of, behind_digits) refl
]

digits_of-AreDigits : (s : Bytes) → AreDigits (digits_of s)
unfolding digits_of
digits_of-AreDigits [] = tt
digits_of-AreDigits (c ∷ s) = elim (Bool-cases (is_digit c)) [
  | inl digit ↦ rw (digit, digits_of) (digit, digits_of-AreDigits s)
  | inr other ↦ rw (other, digits_of) tt
]

digits_some : (s : Bytes) → starts_with_digit s ≡ true → 1 ≤ length (digits_of s)
unfolding digits_of
digits_some [] h = cc
digits_some (c ∷ s) h = rw (h, digits_of) (omega arith)

-- Digits, at least one.
abbrev SplitsDigits : Bytes → Bytes → Bytes → Type 0
SplitsDigits s part rest = Splits s part rest × (1 ≤ length part) × AreDigits part

some_digits-SplitsDigits : (s : Bytes) → Ensures (SplitsDigits s) (some_digits s)
unfolding some_digits
some_digits-SplitsDigits s = elim (Bool-cases (starts_with_digit s)) [
  | inl digit ↦ rw (digit, some_digits) (digits_split s, digits_some s digit, digits_of-AreDigits s)
  | inr other ↦ rw (other, some_digits) (λ h. cc (h))
]

abbrev pub IsMinus : Bytes → Type 0
IsMinus sign = (sign ≡ []) ⊎ (sign ≡ b'-' ∷ [])

sign_part-Splits :
    (s : Bytes) → Ensures (λ sign rest. Splits s sign rest × IsMinus sign) (sign_part s)
unfolding sign_part
sign_part-Splits [] = (refl, inl refl)
sign_part-Splits (c ∷ s) = elim (Bool-cases (not (c == b'-'))) [
  | inl plain ↦ rw (plain, sign_part) (refl, inl refl)
  | inr minus ↦ elim (Bool-cases (starts_with_digit s)) [
    | inl digit ↦
        let same : c ≡ b'-' = ground (arith, minus, ==_iff c b'-') in
        rw (minus, digit, sign_part) (refl, inr (ap (λ d. d ∷ []) same))
    | inr other ↦ rw (minus, other, sign_part) (λ h. cc (h))
  ]
]

integer_part-SplitsDigits : (s : Bytes) → Ensures (SplitsDigits s) (integer_part s)
unfolding integer_part
integer_part-SplitsDigits [] = λ h. cc (h)
integer_part-SplitsDigits (c ∷ s) = elim (Bool-cases (c == b'0')) [
  | inr other ↦ rw (other, integer_part) (some_digits-SplitsDigits (c ∷ s))
  | inl zeroed ↦ elim (Bool-cases (starts_with_digit s)) [
    | inl digit ↦ rw (zeroed, digit, integer_part) (λ h. cc (h))
    | inr last ↦ rw (zeroed, last, integer_part) (refl, omega arith, (ground (arith, zeroed), tt))
  ]
]

fraction_part-Splits :
    (s : Bytes) → Ensures (λ part rest. Splits s part rest × IsFraction part) (fraction_part s)
unfolding fraction_part
fraction_part-Splits [] = (refl, tt)
fraction_part-Splits (c ∷ s) = elim (Bool-cases (c == b'.')) [
  | inr other ↦ rw (other, fraction_part) (refl, tt)
  | inl point ↦
      rw (point, fraction_part)
        (Ensures-map (SplitsDigits s)
          (λ (part : Bytes) rest. Splits (c ∷ s) part rest × IsFraction part) (λ digits. c ∷ digits)
          (some_digits s) (some_digits-SplitsDigits s)
          (λ a t h. (ap (λ (t : Bytes). c ∷ t) h.0, (point, h.2))))
]

abbrev ReadsDigits : ℕ → Bytes → Bytes × ℕ → Bytes → Type 0
ReadsDigits acc s read rest =
    (read.0 ++ rest ≡ s) × AreDigits read.0 × (read.1 ≡ decimal acc read.0)

exponent_digits-Splits : (acc : ℕ) (s : Bytes) → Ensures (ReadsDigits acc s) (exponent_digits acc s)
unfolding exponent_digits
exponent_digits-Splits acc [] = (refl, tt, refl)
exponent_digits-Splits acc (c ∷ s) = elim (Bool-cases (not (is_digit c))) [
  | inl other ↦ rw (other, exponent_digits) (refl, tt, refl)
  | inr digit ↦ elim (Bool-cases (ltb 107374182 acc)) [
    | inl over ↦ rw (digit, over, exponent_digits) (λ h. cc (h))
    | inr fine ↦
        let next = exponent_digits (acc * 10 + (c - b'0')) s in
        rw (digit, fine, exponent_digits)
          (Ensures-map (ReadsDigits (acc * 10 + (c - b'0')) s) (ReadsDigits acc (c ∷ s)) _ next
            (exponent_digits-Splits (acc * 10 + (c - b'0')) s)
            (λ a t h. (ap (λ (t : Bytes). c ∷ t) h.0, (ground (arith, digit), h.1), h.2)))
  ]
]

-- The exponent is a front part of the text, and has been seen if it is not empty.
abbrev SplitsExponent : Bytes → Exponent → Bytes → Type 0
SplitsExponent s e rest =
    (e.text ++ rest ≡ s)
    × IsExponent e.text e.magnitude e.is_negative
    × ((e.is_seen ≡ true) ⊎ (e.magnitude ≡ 0))

signed_digits-Splits :
    (mark : ℕ) (sign : Bytes) (s : Bytes)
    → (mark == b'e' || mark == b'E') ≡ true
    → IsSign sign
    → Ensures (SplitsExponent (mark ∷ (sign ++ s))) (signed_digits mark sign (is_minus sign) s)
unfolding signed_digits
signed_digits-Splits mark sign s marked signed = elim (Bool-cases (not (starts_with_digit s))) [
  | inl other ↦ rw (other, signed_digits) (λ h. cc (h))
  | inr digit ↦
      rw (digit, signed_digits)
        (Ensures-map (ReadsDigits 0 s) (SplitsExponent (mark ∷ (sign ++ s))) _ (exponent_digits 0 s)
          (exponent_digits-Splits 0 s)
          (λ a t h. (
            ap (λ (t : Bytes). mark ∷ t)
                (append_assoc sign a.0 t ∙ ap (λ (t : Bytes). sign ++ t) h.0),
            inr (record {
              mark = mark;
              sign = sign;
              digits = a.0;
              written = refl;
              is_mark = marked;
              one_sign = signed;
              all_digits = h.1;
              value = h.2;
              below_zero = refl;
            }),
            inl refl,
          )))
]

behind_mark-Splits :
    (mark : ℕ) (s : Bytes)
    → (mark == b'e' || mark == b'E') ≡ true
    → Ensures (SplitsExponent (mark ∷ s)) (behind_mark mark s)
unfolding behind_mark
behind_mark-Splits mark [] marked = λ h. cc (h)
behind_mark-Splits mark (c ∷ s) marked = elim (Bool-cases (c == b'+' || c == b'-')) [
  | inl signed ↦ rw (signed, behind_mark) (signed_digits-Splits mark (c ∷ []) s marked signed)
  | inr bare ↦ rw (bare, behind_mark) (signed_digits-Splits mark [] (c ∷ s) marked tt)
]

exponent_part-Splits : (s : Bytes) → Ensures (SplitsExponent s) (exponent_part s)
unfolding exponent_part
exponent_part-Splits [] = (refl, inl (refl, refl, refl), inr refl)
exponent_part-Splits (c ∷ s) = elim (Bool-cases (c == b'e' || c == b'E')) [
  | inl marked ↦ rw (marked, exponent_part) (behind_mark-Splits c s marked)
  | inr other ↦ rw (other, exponent_part) (refl, inl (refl, refl, refl), inr refl)
]

-- The exponent less the digits of the fraction is at most `max` in size.
abbrev pub IsScaled : ℕ → ℕ → Bool → ℕ → Type 0
IsScaled max magnitude true fraction = magnitude + fraction ≤ max
IsScaled max magnitude false fraction = (magnitude ≤ max + fraction) × (fraction ≤ magnitude + max)

-- A lexeme and its budgets: its length, its exponent, and its exponent less the digits of its fraction.
pub record IsLexeme (l : Limits ℕ) (lexeme : Bytes) : Type 0 where
  pub sign : Bytes
  pub int : Bytes
  pub fraction : Bytes
  pub exponent : Bytes
  pub magnitude : ℕ
  pub is_negative : Bool
  pub whole : lexeme ≡ sign ++ int ++ fraction ++ exponent
  pub signed : IsMinus sign
  pub some_digits : 1 ≤ length int
  pub all_digits : AreDigits int
  pub is_fraction : IsFraction fraction
  pub is_exponent : IsExponent exponent magnitude is_negative
  pub short : length lexeme ≤ l.max_number_bytes
  pub small : magnitude ≤ l.max_exponent
  pub scaled : IsScaled l.max_scale magnitude is_negative (length fraction - 1)

IsLexeme-some : (l : Limits ℕ) (lexeme : Bytes) → IsLexeme l lexeme → 1 ≤ length lexeme
IsLexeme-some l lexeme h = omega (
  arith,
  ap length h.whole,
  h.some_digits,
  length-append (h.sign ++ h.int ++ h.fraction) h.exponent,
  length-append (h.sign ++ h.int) h.fraction,
  length-append h.sign h.int,
)

is_scaled :
    (max magnitude fraction : ℕ) (negative : Bool)
    → (if negative
        then ltb max (magnitude + fraction)
        else ltb (max + fraction) magnitude || ltb (magnitude + max) fraction)
      ≡ false
    → IsScaled max magnitude negative fraction
is_scaled max magnitude fraction true h = ground arith
is_scaled max magnitude fraction false h = ground arith

check_lexeme-Ensures :
    (l : Limits ℕ) (lexeme : Bytes) (fraction : ℕ) (e : Exponent) (rest : Bytes)
    → (e.is_seen ≡ true) ⊎ (e.magnitude ≡ 0)
    → Ensures
        (λ (read : Bytes) t.
          (read ≡ lexeme)
          × (t ≡ rest)
          × (length lexeme ≤ l.max_number_bytes)
          × (e.magnitude ≤ l.max_exponent)
          × IsScaled l.max_scale e.magnitude e.is_negative fraction)
        (check_lexeme l lexeme fraction e rest)
unfolding check_lexeme
check_lexeme-Ensures l lexeme fraction e rest seen =
    elim (Bool-cases (ltb l.max_number_bytes (length lexeme))) [
      | inl long ↦ rw (long, check_lexeme) (λ h. cc (h))
      | inr short ↦ elim (Bool-cases (e.is_seen && ltb l.max_exponent e.magnitude)) [
        | inl large ↦ rw (short, large, check_lexeme) (λ h. cc (h))
        | inr small ↦
            let over =
              if e.is_negative
              then ltb l.max_scale (e.magnitude + fraction)
              else ltb (l.max_scale + fraction) e.magnitude
                || ltb (e.magnitude + l.max_scale) fraction in
            elim (Bool-cases over) [
              | inl wide ↦ rw (short, small, wide, check_lexeme) (λ h. cc (h))
              | inr fine ↦
                  rw (short, small, fine, check_lexeme)
                    (
                      refl,
                      refl,
                      ground (arith, short),
                      ground (arith, small, seen),
                      is_scaled l.max_scale e.magnitude fraction e.is_negative fine,
                    )
            ]
      ]
    ]

-- The lexeme is a front part of the text.
pub parse_number-Splits :
    (l : Limits ℕ) (s : Bytes)
    → Ensures
        (λ lexeme rest. Splits s lexeme rest × (1 ≤ length lexeme) × IsLexeme l lexeme)
        (parse_number l s)
unfolding parse_number
parse_number-Splits l s =
    let Read : Bytes → Bytes → Type 0 =
      λ lexeme rest. Splits s lexeme rest × (1 ≤ length lexeme) × IsLexeme l lexeme in
    Ensures-bind (λ sign rest. Splits s sign rest × IsMinus sign) Read (sign_part s) _
      (sign_part-Splits s)
      λ sign s₁ signs.
        Ensures-bind (SplitsDigits s₁) Read (integer_part s₁) _ (integer_part-SplitsDigits s₁)
          λ int s₂ ints.
            Ensures-bind (λ part rest. Splits s₂ part rest × IsFraction part) Read
              (fraction_part s₂) _ (fraction_part-Splits s₂)
              λ fraction s₃ fractions.
                Ensures-bind (SplitsExponent s₃) Read (exponent_part s₃) _ (exponent_part-Splits s₃)
                  λ e s₄ exponents.
                    let lexeme = sign ++ int ++ fraction ++ e.text in
                    let whole : lexeme ++ s₄ ≡ s =
                      simp (append_assoc, exponents.0, fractions.0, ints.0, signs.0) in
                    Ensures-weaken (check_lexeme l lexeme (length fraction - 1) e s₄)
                      (check_lexeme-Ensures l lexeme (length fraction - 1) e s₄ exponents.2)
                      λ read t h.
                        let good : IsLexeme l lexeme = record {
                          sign = sign;
                          int = int;
                          fraction = fraction;
                          exponent = e.text;
                          magnitude = e.magnitude;
                          is_negative = e.is_negative;
                          whole = refl;
                          signed = signs.1;
                          some_digits = ints.1;
                          all_digits = ints.2;
                          is_fraction = fractions.1;
                          is_exponent = exponents.1;
                          short = h.2;
                          small = h.3;
                          scaled = h.4;
                        } in
                        (
                          rw (h.0, h.1) whole,
                          rw h.0 (IsLexeme-some l lexeme good),
                          subst (IsLexeme l) (sym h.0) good,
                        )
