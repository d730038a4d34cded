-- ===== src/Base/Lists.antt =====
-- Lists measured by native numbers, and tests over every entry of a list.
use Prim.Native.Nat.{ℕ, suc, ◌+◌}
use mathlib.Core.Path.{◌≡◌}
use mathlib.Core.Logic.{◌⊎◌, inl, inr}
use mathlib.Core.List.{List, [], ◌∷◌, ◌++◌}
use native.Mathlib.Omega.{arith}

module _ {ℓ} {A : Type ℓ} where
  abbrev pub length : List A → ℕ
  length [] = 0
  length (x ∷ xs) = suc (length xs)

  -- A predicate on every entry.
  abbrev pub All {κ} : (A → Type κ) → List A → Type κ
  All P [] = Unit
  All P (x ∷ xs) = P x × All P xs

  abbrev pub Any {κ} : (A → Type κ) → List A → Type κ
  Any P [] = Unit {κ} → ⊥
  Any P (x ∷ xs) = P x ⊎ Any P xs

  pub Any-elim {κ μ ν} :
      {P : A → Type κ} {Q : A → Type μ} {R : Type ν} (xs : List A)
      → ((x : A) → P x → Q x → R)
      → Any P xs
      → All Q xs
      → R
  Any-elim [] f some_x all = absurd (some_x tt)
  Any-elim (x ∷ xs) f (inl here) all = f x here all.0
  Any-elim (x ∷ xs) f (inr there) all = Any-elim xs f there all.1

  pub Any-map {κ μ ν} :
      {P : A → Type κ} {Q : A → Type μ} {R : A → Type ν} (xs : List A)
      → ((x : A) → P x → Q x → R x)
      → Any P xs
      → All Q xs
      → Any R xs
  Any-map [] f some_x all = absurd (some_x tt)
  Any-map (x ∷ xs) f (inl here) all = inl (f x here all.0)
  Any-map (x ∷ xs) f (inr there) all = inr (Any-map xs f there all.1)

  pub All-middle {κ} :
      (P : A → Type κ) (xs : List A) (a : A) (ys : List A) → All P (xs ++ a ∷ ys) → P a
  All-middle P [] a ys all = all.0
  All-middle P (x ∷ xs) a ys all = All-middle P xs a ys all.1

  pub All-map {κ μ} :
      {P : A → Type κ} {Q : A → Type μ} (xs : List A) → ((x : A) → P x → Q x) → All P xs → All Q xs
  All-map [] f all = tt
  All-map (x ∷ xs) f all = (f x all.0, All-map xs f all.1)

  pub All-both {κ μ} :
      (P : A → Type κ) (Q : A → Type μ) (xs : List A)
      → All P xs
      → All Q xs
      → All (λ x. P x × Q x) xs
  All-both P Q [] ps qs = tt
  All-both P Q (x ∷ xs) ps qs = ((ps.0, qs.0), All-both P Q xs ps.1 qs.1)

  pub length-append : (xs ys : List A) → length (xs ++ ys) ≡ length xs + length ys
  length-append [] ys = omega arith
  length-append (x ∷ xs) ys = omega (arith, length-append xs ys)

  pub All-append {κ} : (P : A → Type κ) (xs ys : List A) → All P xs → All P ys → All P (xs ++ ys)
  All-append P [] ys h k = k
  All-append P (x ∷ xs) ys h k = (h.0, All-append P xs ys h.1 k)

  -- What a function of the entries comes to over a list, and when one entry is replaced.
  abbrev pub total : (A → ℕ) → List A → ℕ
  total f [] = 0
  total f (x ∷ xs) = f x + total f xs

  pub total-middle :
      (f : A → ℕ) (xs : List A) (a : A) (ys : List A)
      → total f (xs ++ a ∷ ys) ≡ f a + (total f xs + total f ys)
  total-middle f [] a ys = omega arith
  total-middle f (x ∷ xs) a ys = omega (arith, total-middle f xs a ys)

  pub total-replaced :
      (f : A → ℕ) (xs ys : List A) (a b : A)
      → total f (xs ++ b ∷ ys) + f a ≡ total f (xs ++ a ∷ ys) + f b
  total-replaced f xs ys a b = omega (arith, total-middle f xs a ys, total-middle f xs b ys)

  pub All-replaced {κ} :
      (P : A → Type κ) (xs ys : List A) (a b : A)
      → P b
      → All P (xs ++ a ∷ ys)
      → All P (xs ++ b ∷ ys)
  All-replaced P [] ys a b h all = (h, all.1)
  All-replaced P (x ∷ xs) ys a b h all = (all.0, All-replaced P xs ys a b h all.1)
