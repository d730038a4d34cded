-- ===== src/Tools/Pattern/Total.antt =====
-- Termination of the parser of core/tools/pattern.go: how much text each of its functions leaves, and
-- how much fuel that takes.
use serpe.Base.{
  bind_inv, ℕ, zero, suc, ◌+◌, ◌*◌, ◌≤◌, true, not, ◌||◌, Option, none, some, [], ◌∷◌, ◌==◌, ◌≡◌,
  ◌≢◌, refl, nat_eq, ltb, if◌then◌else◌, length, length-drop, Bytes, drop, arith, valid_string,
  bytes_eq, Bool-cases, inl, inr,
}
use serpe.Tools.Pattern.{
  out_of_fuel, trailing_text, budget_exceeded, Result, ok, err, ◌>>=◌, add_regex_cost,
  max_regex_expanded, parse_quantifier, close_expr, parse_expr, expr_loop, parse_sequence,
  parse_atom, pattern_fuel, validate_portable_pattern, starts_with, is_stop,
}
use serpe.Tools.Pattern.Leaves.{
  Ends, Ends-weaken, Ends-bind, add_regex_cost-Ends, parse_quantifier-Ends, parse_plain_atom-Ends,
}

close_expr-Ends :
    (stop : Option ℕ) (total : ℕ) (s : Bytes) → Ends (length s) (close_expr stop total s)
unfolding close_expr
close_expr-Ends none total s = omega arith
close_expr-Ends (some stop) total s = ground (arith, length-drop 1 s)

branch-Ends :
    (f : ℕ) (stop : Option ℕ) (sum : ℕ) (s after : Bytes)
    → ((more : ℕ) (rest : Bytes)
        → 4 * length rest + 2 ≤ f
        → Ends (length rest) (expr_loop f stop more rest))
    → length after ≤ length s
    → 4 * length s + 2 ≤ suc f
    → Ends (length s) (
        if starts_with b'|' after
        then (add_regex_cost sum 1 >>= λ more. expr_loop f stop more (drop 1 after))
        else close_expr stop sum after)
branch-Ends f stop sum s [] loop short le =
    Ends-weaken 0 (length s) (close_expr stop sum []) (omega arith) (close_expr-Ends stop sum [])
branch-Ends f stop sum s (c ∷ after) loop short le = elim (Bool-cases (c == b'|')) [
  | inl bar ↦ rw bar (
      add_regex_cost-Ends (length s) sum 1 _ (λ more.
        Ends-weaken (length after) (length s) (expr_loop f stop more after) (omega arith)
          (loop more after (omega arith))))
  | inr end ↦ rw end (
      Ends-weaken (length (c ∷ after)) (length s) (close_expr stop sum (c ∷ after)) short
        (close_expr-Ends stop sum (c ∷ after)))
]

mutual
  unfolding parse_expr

  parse_expr-Ends :
      (f : ℕ) (stop : Option ℕ) (s : Bytes)
      → 4 * length s + 3 ≤ f
      → Ends (length s) (parse_expr f stop s)
  parse_expr-Ends zero stop s le = absurd (omega arith)
  parse_expr-Ends (suc f) stop s le = expr_loop-Ends f stop 1 s (omega arith)

  expr_loop-Ends :
      (f : ℕ) (stop : Option ℕ) (total : ℕ) (s : Bytes)
      → 4 * length s + 2 ≤ f
      → Ends (length s) (expr_loop f stop total s)
  expr_loop-Ends zero stop total s le = absurd (omega arith)
  expr_loop-Ends (suc f) stop total s le =
      Ends-bind (length s) (length s) (parse_sequence f stop 1 s) _
        (parse_sequence-Ends f stop 1 s (omega arith))
        (λ seq after short.
          add_regex_cost-Ends (length s) total seq _
            (λ sum. branch-Ends f stop sum s after (expr_loop-Ends f stop) short le))

  parse_sequence-Ends :
      (f : ℕ) (stop : Option ℕ) (total : ℕ) (s : Bytes)
      → 4 * length s + 1 ≤ f
      → Ends (length s) (parse_sequence f stop total s)
  parse_sequence-Ends f stop total [] le = omega arith
  parse_sequence-Ends zero stop total (c ∷ s) le = absurd (omega arith)
  parse_sequence-Ends (suc f) stop total (c ∷ s) le =
      elim (Bool-cases (c == b'|' || is_stop stop c)) [
        | inl end ↦ rw end (omega arith)
        | inr more ↦ rw more (
            Ends-bind (length s) (length (c ∷ s)) (parse_atom f c s) _
              (parse_atom-Ends f c s (omega arith))
              (λ atom after short.
                Ends-bind (length after) (length (c ∷ s)) (parse_quantifier atom after) _
                  (parse_quantifier-Ends atom after)
                  (λ cost rest shorter. add_regex_cost-Ends (length (c ∷ s)) total cost _ (λ sum.
                    Ends-weaken (length rest) (length (c ∷ s)) (parse_sequence f stop sum rest)
                      (omega arith) (parse_sequence-Ends f stop sum rest (omega arith))))))
      ]

  parse_atom-Ends :
      (f c : ℕ) (s : Bytes) → 4 * length s + 4 ≤ f → Ends (length s) (parse_atom f c s)
  parse_atom-Ends zero c s le = absurd (omega arith)
  parse_atom-Ends (suc f) c s le = elim (Bool-cases (c == b'(')) [
    | inr plain ↦ rw plain (parse_plain_atom-Ends c s)
    | inl group ↦ rw group (elim (Bool-cases (starts_with b'?' s)) [
      | inl kind ↦ rw kind refl
      | inr capturing ↦ rw capturing (
          Ends-bind (length s) (length s) (parse_expr f (some b')') s) _
            (parse_expr-Ends f (some b')') s (omega arith))
            (λ cost rest short.
              add_regex_cost-Ends (length s) cost 1 (λ total. ok (total, rest)) (λ _. short)))
    ])
  ]

within_budget :
    (c cost : ℕ) (rest : Bytes)
    → (if not (rest == [])
        then err trailing_text
        else if ltb max_regex_expanded c
        then err budget_exceeded
        else ok c)
      ≡ ok cost
    → cost ≤ max_regex_expanded
within_budget c cost rest h = ground arith

-- The parser did not run out of fuel, and what it accepted is text of a cost within the budget.
abbrev pub IsSound : Bytes → Result ℕ → Type 0
IsSound s (err e) = e ≢ out_of_fuel
IsSound s (ok cost) = (cost ≤ max_regex_expanded) × (valid_string s ≡ true)

validate_portable_pattern_inv :
    (s : Bytes) (cost : ℕ)
    → validate_portable_pattern s ≡ ok cost
    → (cost ≤ max_regex_expanded) × (valid_string s ≡ true)
unfolding validate_portable_pattern
validate_portable_pattern_inv s cost h = elim (Bool-cases (valid_string s)) [
  | inr invalid ↦ absurd (cc (invalid, h))
  | inl valid ↦
      let ((c, rest), parsed, done) =
        bind_inv (parse_expr (pattern_fuel s) none s) _ (rw valid at h) in
      (within_budget c cost rest done, valid)
]

validate_portable_pattern_fueled : (s : Bytes) → validate_portable_pattern s ≢ err out_of_fuel
unfolding validate_portable_pattern
validate_portable_pattern_fueled s h =
    let ends = parse_expr-Ends (pattern_fuel s) none s (omega arith) in ground arith

-- The parser of patterns ends on every text, with an error or with a cost: the number of calls that
-- the model allows is never used up. What it accepts is valid UTF-8, of a cost within the budget.
pub validate_portable_pattern-IsSound : (s : Bytes) → IsSound s (validate_portable_pattern s)
validate_portable_pattern-IsSound s = sound (validate_portable_pattern s) refl
  where
    sound : (r : Result ℕ) → validate_portable_pattern s ≡ r → IsSound s r
    sound (ok cost) h = validate_portable_pattern_inv s cost h
    sound (err e) h = λ out. validate_portable_pattern_fueled s (cc (h, out))
