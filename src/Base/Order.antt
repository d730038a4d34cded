-- ===== src/Base/Order.antt =====
-- `<` on Go strings is a total order.
use mathlib.Core.Path.{◌≡◌, refl}
use mathlib.Core.Bool.{true, false}
use mathlib.Core.List.{[], ◌∷◌}
use native.Mathlib.Omega.{arith}
use serpe.Base.Text.{Bytes, bytes_ltb}

pub bytes_ltb_irrefl : (s : Bytes) → bytes_ltb s s ≡ false
unfolding bytes_ltb
bytes_ltb_irrefl [] = refl
bytes_ltb_irrefl (a ∷ s) = ground (arith, bytes_ltb_irrefl s)

-- Where neither is less, the strings are the same.
pub bytes_ltb_total : (s t : Bytes) → bytes_ltb s t ≡ false → bytes_ltb t s ≡ false → s ≡ t
unfolding bytes_ltb
bytes_ltb_total [] [] h k = refl
bytes_ltb_total [] (b ∷ t) h k = ground arith
bytes_ltb_total (a ∷ s) [] h k = ground arith
bytes_ltb_total (a ∷ s) (b ∷ t) h k = ground (arith, bytes_ltb_total s t)

pub bytes_ltb_asym : (s t : Bytes) → bytes_ltb s t ≡ true → bytes_ltb t s ≡ false
unfolding bytes_ltb
bytes_ltb_asym [] [] h = ground arith
bytes_ltb_asym [] (b ∷ t) h = ground arith
bytes_ltb_asym (a ∷ s) [] h = ground arith
bytes_ltb_asym (a ∷ s) (b ∷ t) h = ground (arith, bytes_ltb_asym s t)

pub bytes_ltb_trans :
    (s t u : Bytes) → bytes_ltb s t ≡ true → bytes_ltb t u ≡ true → bytes_ltb s u ≡ true
unfolding bytes_ltb
bytes_ltb_trans s t [] h k = ground arith
bytes_ltb_trans s [] (c ∷ u) h k = ground arith
bytes_ltb_trans [] (b ∷ t) (c ∷ u) h k = ground arith
bytes_ltb_trans (a ∷ s) (b ∷ t) (c ∷ u) h k = ground (arith, bytes_ltb_trans s t u)

-- t ≤ s < u
pub bytes_le_lt_trans :
    (t s u : Bytes) → bytes_ltb s t ≡ false → bytes_ltb s u ≡ true → bytes_ltb t u ≡ true
unfolding bytes_ltb
bytes_le_lt_trans [] s [] h k = ground arith
bytes_le_lt_trans [] s (c ∷ u) h k = ground arith
bytes_le_lt_trans (b ∷ t) s [] h k = ground arith
bytes_le_lt_trans (b ∷ t) [] (c ∷ u) h k = ground arith
bytes_le_lt_trans (b ∷ t) (a ∷ s) (c ∷ u) h k = ground (arith, bytes_le_lt_trans t s u)
