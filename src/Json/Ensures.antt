-- ===== src/Json/Ensures.antt =====
-- What a parser of internal/jsonvalue ensures: it has had enough fuel, and what it has read satisfies a
-- predicate on it and on the rest of the text.
use serpe.Base.{◌≡◌, ◌≢◌, Bytes, ◌<◌, length, ◌++◌}
use serpe.Json.{Outcome, done, failed, ◌>>=◌, map_outcome, exhausted}

abbrev pub Ensures {ℓ} : {A : Type ℓ} → (A → Bytes → Type 0) → Outcome A → Type 0
Ensures P (done a s) = P a s
Ensures P (failed e) = e ≢ exhausted

module _ {ℓ κ} {A : Type ℓ} {B : Type κ} where
  pub Ensures-bind :
      (P : A → Bytes → Type 0) (Q : B → Bytes → Type 0) (o : Outcome A) (f : A → Bytes → Outcome B)
      → Ensures P o
      → ((a : A) (s : Bytes) → P a s → Ensures Q (f a s))
      → Ensures Q (o >>= f)
  Ensures-bind P Q (done a s) f h k = k a s h
  Ensures-bind P Q (failed e) f h k = h

  pub Ensures-map :
      (P : A → Bytes → Type 0) (Q : B → Bytes → Type 0) (f : A → B) (o : Outcome A)
      → Ensures P o
      → ((a : A) (s : Bytes) → P a s → Q (f a) s)
      → Ensures Q (map_outcome f o)
  Ensures-map P Q f (done a s) h k = k a s h
  Ensures-map P Q f (failed e) h k = h

pub Ensures-weaken {ℓ} :
    {A : Type ℓ} {P Q : A → Bytes → Type 0} (o : Outcome A)
    → Ensures P o
    → ((a : A) (s : Bytes) → P a s → Q a s)
    → Ensures Q o
Ensures-weaken (done a s) h k = k a s h
Ensures-weaken (failed e) h k = h

-- Less than the text `s` is left.
abbrev pub Shorter {ℓ} : {A : Type ℓ} → Bytes → A → Bytes → Type 0
Shorter s a rest = length rest < length s

-- What has been read and what is left make up the text.
abbrev pub Splits : Bytes → Bytes → Bytes → Type 0
Splits s part rest = part ++ rest ≡ s
