-- ===== src/Base/Text.antt =====
-- Go strings as lists of bytes, with what the code uses of `unicode/utf8` and `unicode`.
use Prim.Native.Nat.{ℕ, zero, suc, ◌+◌, ◌*◌, ◌-◌, ◌≤◌}
use mathlib.Core.Path.{◌≡◌, refl, ap}
use mathlib.Core.Logic.{◌↔◌}
use mathlib.Core.Bool.{Bool, true, false, not, ◌&&◌, ◌||◌}
use mathlib.Core.List.{List, [], ◌∷◌, ◌++◌}
use native.Mathlib.Omega.{arith}
use Prim.Native.Char.{code}
use Prim.Native.String.{String}
use serpe.Base.Tests.{◌==◌, in_range, ltb, nat_beq, Comparable, if◌then◌else◌}
use serpe.Base.Lists.{length}

abbrev pub Bytes : Type 0
Bytes = List ℕ

-- The bytes of an ASCII text.
abbrev pub codes : String → Bytes
codes String.[] = []
codes (String.◌∷◌ c s) = code c ∷ codes s

unfoldable pub bytes_beq : Bytes → Bytes → Bool
bytes_beq [] [] = true
bytes_beq (a ∷ s) (b ∷ t) = nat_beq a b && bytes_beq s t
bytes_beq _ _ = false

pub bytes_beq_iff : (s t : Bytes) → (bytes_beq s t ≡ true) ↔ (s ≡ t)
unfolding bytes_beq
bytes_beq_iff [] [] = ground arith
bytes_beq_iff [] (b ∷ t) = ground arith
bytes_beq_iff (a ∷ s) [] = ground arith
bytes_beq_iff (a ∷ s) (b ∷ t) = ground (arith, bytes_beq_iff s t)

instance abbrev pub bytes_eq : Comparable Bytes
bytes_eq = record { same = bytes_beq; same_iff = bytes_beq_iff }

-- `s < t` on strings: byte by byte.
unfoldable pub bytes_ltb : Bytes → Bytes → Bool
bytes_ltb s [] = false
bytes_ltb [] (b ∷ t) = true
bytes_ltb (a ∷ s) (b ∷ t) = ltb a b || (nat_beq a b && bytes_ltb s t)

abbrev pub rune_error : ℕ
rune_error = 0xfffd

abbrev bad : ℕ × ℕ
bad = (rune_error, 1)

-- The bounds that the first byte puts on the second.
unfoldable pub second_low : ℕ → ℕ
second_low b = if nat_beq b 0xe0 then 0xa0 else if nat_beq b 0xf0 then 0x90 else 0x80

unfoldable pub second_high : ℕ → ℕ
second_high b = if nat_beq b 0xed then 0x9f else if nat_beq b 0xf4 then 0x8f else 0xbf

unfoldable pub two_bytes : ℕ → Bytes → ℕ × ℕ
two_bytes a (b ∷ _) = if in_range 0x80 0xbf b then ((a - 0xc0) * 64 + (b - 0x80), 2) else bad
two_bytes a [] = bad

unfoldable pub three_bytes : ℕ → Bytes → ℕ × ℕ
unfolding second_low second_high
three_bytes a (b ∷ c ∷ _) =
    if in_range (second_low a) (second_high a) b && in_range 0x80 0xbf c
    then ((a - 0xe0) * 4096 + (b - 0x80) * 64 + (c - 0x80), 3)
    else bad
three_bytes a _ = bad

unfoldable pub four_bytes : ℕ → Bytes → ℕ × ℕ
unfolding second_low second_high
four_bytes a (b ∷ c ∷ d ∷ _) =
    if in_range (second_low a) (second_high a) b && in_range 0x80 0xbf c && in_range 0x80 0xbf d
    then ((a - 0xf0) * 262144 + (b - 0x80) * 4096 + (c - 0x80) * 64 + (d - 0x80), 4)
    else bad
four_bytes a _ = bad

-- `utf8.DecodeRuneInString`: the rune and its width.
unfoldable pub decode_rune : Bytes → ℕ × ℕ
unfolding two_bytes three_bytes four_bytes
decode_rune [] = (rune_error, 0)
decode_rune (a ∷ s) =
    if ltb a 0x80
    then (a, 1)
    else if in_range 0xc2 0xdf a
    then two_bytes a s
    else if in_range 0xe0 0xef a
    then three_bytes a s
    else if in_range 0xf0 0xf4 a
    then four_bytes a s
    else bad

-- A rune takes a byte at least.
pub decode_rune_width : (a : ℕ) (s : Bytes) → 1 ≤ (decode_rune (a ∷ s)).1
unfolding decode_rune two_bytes three_bytes four_bytes
decode_rune_width a s = ground arith

-- Whether a name is among others.
abbrev pub contains : Bytes → List Bytes → Bool
contains k [] = false
contains k (x ∷ xs) = x == k || contains k xs

abbrev pub drop {ℓ} : {A : Type ℓ} → ℕ → List A → List A
drop zero xs = xs
drop (suc n) [] = []
drop (suc n) (x ∷ xs) = drop n xs

abbrev pub take {ℓ} : {A : Type ℓ} → ℕ → List A → List A
take zero xs = []
take (suc n) [] = []
take (suc n) (x ∷ xs) = x ∷ take n xs

pub length-drop {ℓ} : {A : Type ℓ} (n : ℕ) (xs : List A) → length (drop n xs) ≡ length xs - n
length-drop zero xs = omega arith
length-drop (suc n) [] = omega arith
length-drop (suc n) (x ∷ xs) = omega (arith, length-drop n xs)

-- What stands in front, and what stands behind it.
pub take-++ {ℓ} : {A : Type ℓ} (n : ℕ) (xs ys : List A) → length xs ≡ n → take n (xs ++ ys) ≡ xs
take-++ zero [] ys h = refl
take-++ zero (x ∷ xs) ys h = absurd (omega (arith, h))
take-++ (suc n) [] ys h = absurd (omega (arith, h))
take-++ (suc n) (x ∷ xs) ys h = ap (λ zs. x ∷ zs) (take-++ n xs ys (omega (arith, h)))

pub drop-++ {ℓ} : {A : Type ℓ} (n : ℕ) (xs ys : List A) → length xs ≡ n → drop n (xs ++ ys) ≡ ys
drop-++ zero [] ys h = refl
drop-++ zero (x ∷ xs) ys h = absurd (omega (arith, h))
drop-++ (suc n) [] ys h = absurd (omega (arith, h))
drop-++ (suc n) (x ∷ xs) ys h = drop-++ n xs ys (omega (arith, h))

pub length-take_whole {ℓ} : {A : Type ℓ} (n : ℕ) (xs : List A) → length (take n xs) ≤ length xs
length-take_whole zero xs = omega arith
length-take_whole (suc n) [] = omega arith
length-take_whole (suc n) (x ∷ xs) = omega (arith, length-take_whole n xs)

-- A test of every rune of a string. A byte that begins no rune is read as `rune_error`, as `range`
-- reads it. Each round takes a byte at least, so the length is enough fuel.
unfoldable pub all_runes_fuel : ℕ → (ℕ × ℕ → Bool) → Bytes → Bool
all_runes_fuel f p [] = true
all_runes_fuel zero p (a ∷ s) = false
all_runes_fuel (suc f) p (a ∷ s) =
    let step = decode_rune (a ∷ s) in
    let rest = all_runes_fuel f p (drop (step.1 - 1) s) in p step && rest

unfoldable pub all_runes : (ℕ × ℕ → Bool) → Bytes → Bool
unfolding all_runes_fuel decode_rune
all_runes p s = all_runes_fuel (length s) p s

-- `utf8.ValidString`
unfoldable pub valid_string : Bytes → Bool
unfolding all_runes
valid_string = all_runes (λ step. not (nat_beq step.0 rune_error && nat_beq step.1 1))

-- `unicode.IsControl`: the category Cc.
unfoldable pub is_control : ℕ → Bool
is_control r = ltb r 0x20 || in_range 0x7f 0x9f r

unfoldable pub contains_control : Bytes → Bool
unfolding all_runes is_control
contains_control s = not (all_runes (λ step. not (is_control step.0)) s)

accents : valid_string (0xc3 ∷ 0xa9 ∷ b'a' ∷ []) && not (valid_string (0xc3 ∷ b'a' ∷ [])) ≡ true
unfolding valid_string
accents = refl
