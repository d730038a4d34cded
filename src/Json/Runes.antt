-- ===== src/Json/Runes.antt =====
-- A rune of several bytes in a string that internal/jsonvalue writes.
use serpe.Base.{
  in_range, ℕ, suc, ◌-◌, ◌≤◌, ◌≡◌, refl, sym, inl, inr, Bool, true, false, not, ◌&&◌, [], ◌∷◌, ◌++◌,
  nat_eq, ltb, take, drop, Bytes, arith, Bool-cases, decode_rune, subst, second_low, second_high,
  two_bytes, three_bytes, four_bytes, all_runes_fuel, rune_error, nat_beq,
}
use mathlib.Core.Path.{fun_ext}
use serpe.Json.Text.{is_invalid}
use serpe.Json.Write.{escape_byte, escape_text}

pub escape_high : (b : ℕ) → 0x80 ≤ b → escape_byte b ≡ b ∷ []
unfolding escape_byte
escape_high b h = ground arith

-- A valid rune of several bytes is written as it is.
pub record Front (f : Bytes → ℕ × ℕ) (s t : Bytes) : Type 0 where
  pub same : f (escape_text s ++ t) ≡ f s
  pub taken : take ((f s).1 - 1) (escape_text s ++ t) ≡ take ((f s).1 - 1) s
  pub left : drop ((f s).1 - 1) (escape_text s ++ t) ≡ escape_text (drop ((f s).1 - 1) s) ++ t

second_bounds : (a b : ℕ) → in_range (second_low a) (second_high a) b ≡ true → 0x80 ≤ b
unfolding second_low
second_bounds a b h = ground arith

two-Front : (a : ℕ) (s t : Bytes) → is_invalid (two_bytes a s) ≡ false → Front (two_bytes a) s t
unfolding two_bytes escape_text
two-Front a [] t h = absurd (cc (h))
two-Front a (b ∷ s) t h = elim (Bool-cases (in_range 0x80 0xbf b)) [
  | inr wrong ↦ absurd (cc (rw (wrong, two_bytes) at h))
  | inl fine ↦
      let plain = escape_high b (ground arith) in
      record {
        same = rw (plain, fine, two_bytes) refl;
        taken = rw (plain, fine, two_bytes) refl;
        left = rw (plain, fine, two_bytes) refl;
      }
]

three-Front :
    (a : ℕ) (s t : Bytes) → is_invalid (three_bytes a s) ≡ false → Front (three_bytes a) s t
unfolding three_bytes escape_text
three-Front a [] t h = absurd (cc (h))
three-Front a (b ∷ []) t h = absurd (cc (h))
three-Front a (b ∷ c ∷ s) t h =
    elim (Bool-cases (in_range (second_low a) (second_high a) b && in_range 0x80 0xbf c)) [
      | inr wrong ↦ absurd (cc (rw (wrong, three_bytes) at h))
      | inl fine ↦
          let plain = escape_high b (second_bounds a b (ground arith)) in
          let plain' = escape_high c (ground arith) in
          record {
            same = rw (plain, plain', fine, three_bytes) refl;
            taken = rw (plain, plain', fine, three_bytes) refl;
            left = rw (plain, plain', fine, three_bytes) refl;
          }
    ]

four-Front : (a : ℕ) (s t : Bytes) → is_invalid (four_bytes a s) ≡ false → Front (four_bytes a) s t
unfolding four_bytes escape_text
four-Front a [] t h = absurd (cc (h))
four-Front a (b ∷ []) t h = absurd (cc (h))
four-Front a (b ∷ c ∷ []) t h = absurd (cc (h))
four-Front a (b ∷ c ∷ d ∷ s) t h =
    elim (Bool-cases
      (in_range (second_low a) (second_high a) b && in_range 0x80 0xbf c && in_range 0x80 0xbf d)) [
        | inr wrong ↦ absurd (cc (rw (wrong, four_bytes) at h))
        | inl fine ↦
            let plain = escape_high b (second_bounds a b (ground arith)) in
            let plain' = escape_high c (ground arith) in
            let plain'' = escape_high d (ground arith) in
            record {
              same = rw (plain, plain', plain'', fine, four_bytes) refl;
              taken = rw (plain, plain', plain'', fine, four_bytes) refl;
              left = rw (plain, plain', plain'', fine, four_bytes) refl;
            }
      ]

Front-same :
    (a : ℕ) (s t : Bytes) (f : Bytes → ℕ × ℕ)
    → ((s : Bytes) → decode_rune (a ∷ s) ≡ f s)
    → Front f s t
    → Front (λ s. decode_rune (a ∷ s)) s t
Front-same a s t f same h = subst (λ f. Front f s t) (sym (fun_ext same)) h

pub rune-Front :
    (a : ℕ) (s t : Bytes)
    → 0x80 ≤ a
    → is_invalid (decode_rune (a ∷ s)) ≡ false
    → Front (λ s. decode_rune (a ∷ s)) s t
unfolding decode_rune
rune-Front a s t le h = elim (Bool-cases (ltb a 0x80)) [
  | inl low ↦ absurd (ground arith)
  | inr upper ↦ elim (Bool-cases (in_range 0xc2 0xdf a)) [
    | inl two ↦
        let same : (s : Bytes) → decode_rune (a ∷ s) ≡ two_bytes a s =
          λ s. rw (upper, two, decode_rune) refl in
        Front-same a s t (two_bytes a) same (two-Front a s t (rw same at h))
    | inr not_two ↦ elim (Bool-cases (in_range 0xe0 0xef a)) [
      | inl three ↦
          let same : (s : Bytes) → decode_rune (a ∷ s) ≡ three_bytes a s =
            λ s. rw (upper, not_two, three, decode_rune) refl in
          Front-same a s t (three_bytes a) same (three-Front a s t (rw same at h))
      | inr not_three ↦ elim (Bool-cases (in_range 0xf0 0xf4 a)) [
        | inl four ↦
            let same : (s : Bytes) → decode_rune (a ∷ s) ≡ four_bytes a s =
              λ s. rw (upper, not_two, not_three, four, decode_rune) refl in
            Front-same a s t (four_bytes a) same (four-Front a s t (rw same at h))
        | inr none_fits ↦ absurd (cc (rw (upper, not_two, not_three, none_fits, decode_rune) at h))
      ]
    ]
  ]
]

-- The tests that `utf8.ValidString` makes of a rune.
abbrev pub is_valid : ℕ × ℕ → Bool
is_valid step = not (nat_beq step.0 rune_error && nat_beq step.1 1)

-- The rest of a valid text behind its first rune is valid.
pub valid_step :
    (g a : ℕ) (s : Bytes)
    → all_runes_fuel (suc g) is_valid (a ∷ s) ≡ true
    → (is_invalid (decode_rune (a ∷ s)) ≡ false)
      × (all_runes_fuel g is_valid (drop ((decode_rune (a ∷ s)).1 - 1) s) ≡ true)
unfolding all_runes_fuel
valid_step g a s h =
    split (decode_rune (a ∷ s)) (all_runes_fuel g is_valid (drop ((decode_rune (a ∷ s)).1 - 1) s)) h
  where
    split :
        (step : ℕ × ℕ) (b : Bool)
        → (is_valid step && b) ≡ true
        → (is_invalid step ≡ false) × (b ≡ true)
    split step b h = ground arith
