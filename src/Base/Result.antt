-- ===== src/Base/Result.antt =====
-- Go's pair of a value and an error: a value, or an error of the component's own type.
use mathlib.Core.Path.{◌≡◌, refl, ap}
use mathlib.Core.Logic.{◌⊎◌, inl, inr}
use mathlib.Core.Bool.{Bool, true, false}
use serpe.Base.Tests.{if◌then◌else◌}

pub data Fallible {ℓ} (E : Type 0) (A : Type ℓ) : Type ℓ where
  ok : A → Fallible E A
  err : E → Fallible E A

infixl 5 ◌>>=◌
abbrev pub ◌>>=◌ {ℓ κ} :
    {E : Type 0} {A : Type ℓ} {B : Type κ} → Fallible E A → (A → Fallible E B) → Fallible E B
ok a >>= f = f a
err e >>= f = err e

-- Inversion of what has succeeded.
module _ {E : Type 0} where
  pub bind_inv {ℓ κ} :
      {A : Type ℓ} {B : Type κ} (r : Fallible E A) (f : A → Fallible E B) {b : B}
      → (r >>= f) ≡ ok b
      → (a : A) × (r ≡ ok a) × (f a ≡ ok b)
  bind_inv (ok a) f h = (a, refl, h)
  bind_inv (err e) f h = absurd (cc (h))

  pub ok_inj {ℓ} : {A : Type ℓ} {a b : A} → ◌≡◌ {A = Fallible E A} (ok a) (ok b) → a ≡ b
  ok_inj {A = A} {a = a} = ap value
    where
      value : Fallible E A → A
      value (ok x) = x
      value (err e) = a

  pub Fallible-cases {ℓ} :
      {A : Type ℓ} (r : Fallible E A) → ((a : A) × (r ≡ ok a)) ⊎ ((e : E) × (r ≡ err e))
  Fallible-cases (ok a) = inl (a, refl)
  Fallible-cases (err e) = inr (e, refl)

  pub guard_inv {ℓ} :
      {A : Type ℓ} (a : Bool) (e : E) (r : Fallible E A) {q : A}
      → (if a then err e else r) ≡ ok q
      → (a ≡ false) × (r ≡ ok q)
  guard_inv true e r h = absurd (cc (h))
  guard_inv false e r h = (refl, h)

-- A predicate on what has succeeded.
module _ {E : Type 0} where
  abbrev pub AllOk {ℓ κ} : {A : Type ℓ} → (A → Type κ) → Fallible E A → Type κ
  AllOk P (ok a) = P a
  AllOk P (err e) = Unit

  pub AllOk-bind {ℓ κ ι} :
      {A : Type ℓ} {B : Type κ} (Q : A → Type ι) (P : B → Type ι) (r : Fallible E A)
      (f : A → Fallible E B)
      → AllOk Q r
      → ((a : A) → Q a → AllOk P (f a))
      → AllOk P (r >>= f)
  AllOk-bind Q P (ok a) f q k = k a q
  AllOk-bind Q P (err e) f q k = tt
