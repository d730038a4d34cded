-- ===== src/Sessions/Locks/Exclusive.antt =====
-- What the locks of runtime/sessions/manager.go guarantee.
use serpe.Base.{
  ℕ, ◌+◌, ◌≤◌, ◌<◌, ◌≡◌, refl, sym, subst, ap, ◌∙◌, inl, inr, Bool, true, false, Option, none, some,
  List, [], ◌∷◌, ◌++◌, ◌==◌, ==_iff, nat_eq, if◌then◌else◌, Bytes, bytes_eq, Assoc, lookup,
  Bool-cases, Option-cases, arith, total, total-replaced, All,
}
use serpe.Sessions.Locks.{
  SessionLock, Manager, set_lock, Thread, outside, gone, waiting, holding, leaving,
}

abbrev pub bit : Bool → ℕ
bit true = 1
bit false = 0

-- The thread is between the reference to a lock of the ID and its end.
abbrev pub is_on : Bytes → Thread → ℕ
is_on k outside = 0
is_on k gone = 0
is_on k (waiting id a) = bit (id == k)
is_on k (holding id a) = bit (id == k)
is_on k (leaving id a) = bit (id == k)

abbrev pub is_holding : Bytes → Thread → ℕ
is_holding k (holding id a) = bit (id == k)
is_holding k _ = 0

-- The address that a thread keeps is that of the map.
abbrev pub Knows : Assoc Bytes ℕ → Thread → Type 0
Knows locks outside = Unit
Knows locks gone = Unit
Knows locks (waiting id a) = lookup id locks ≡ some a
Knows locks (holding id a) = lookup id locks ≡ some a
Knows locks (leaving id a) = lookup id locks ≡ some a

-- The lock of an ID in the map, against the threads on the ID and those that hold it.
abbrev pub Fits : Option SessionLock → ℕ → ℕ → Type 0
Fits none n h = (n ≡ 0) × (h ≡ 0)
Fits (some l) n h = (l.refs ≡ n) × (1 ≤ n) × (h + bit l.token ≡ 1)

abbrev pub lock_at : (ℕ → SessionLock) → Option ℕ → Option SessionLock
lock_at heap none = none
lock_at heap (some a) = some (heap a)

abbrev pub lock_of : Manager → Bytes → Option SessionLock
lock_of m k = lock_at m.heap (lookup k m.locks)

abbrev pub IsSingle : Manager → Type 0
IsSingle m = (i j : Bytes) (a : ℕ) → lookup i m.locks ≡ some a → lookup j m.locks ≡ some a → i ≡ j

pub record IsExclusive (m : Manager) (ts : List Thread) : Type 0 where
  pub fits : (k : Bytes) → Fits (lock_of m k) (total (is_on k) ts) (total (is_holding k) ts)
  pub known : All (Knows m.locks) ts
  pub single : IsSingle m
  pub used : (k : Bytes) (a : ℕ) → lookup k m.locks ≡ some a → a < m.free

pub unchanged :
    (o p : Option SessionLock) {n h n' h' : ℕ} → p ≡ o → n' ≡ n → h' ≡ h → Fits o n h → Fits p n' h'
unchanged o p same n h fits = rw (same, n, h) fits

-- A step of one thread that changes the lock of one ID.
module _ (m m' : Manager) (before after : List Thread) (t u : Thread) (id : Bytes)
    (l : Option SessionLock)
    (lock_set : (k : Bytes) → lock_of m' k ≡ (if id == k then l else lock_of m k))
    (on_others : (k : Bytes)
      → (id == k) ≡ false
      → (is_on k u ≡ is_on k t) × (is_holding k u ≡ is_holding k t))
    (at_id : Fits l
      (total (is_on id) (before ++ u ∷ after))
      (total (is_holding id) (before ++ u ∷ after))) where
  pub step-Fits :
      ((k : Bytes)
        → Fits
            (lock_of m k)
            (total (is_on k) (before ++ t ∷ after))
            (total (is_holding k) (before ++ t ∷ after)))
      → (k : Bytes)
      → Fits
          (lock_of m' k)
          (total (is_on k) (before ++ u ∷ after))
          (total (is_holding k) (before ++ u ∷ after))
  step-Fits fits k = elim (Bool-cases (id == k)) [
    | inl here ↦
        let now : lock_of m' id ≡ l =
          lock_set id ∙ ap (λ b. if b then l else lock_of m id) ((==_iff id id).1 refl) in
        subst
          (λ j.
            Fits (lock_of m' j) (total (is_on j) (before ++ u ∷ after))
              (total (is_holding j) (before ++ u ∷ after)))
          ((==_iff id k).0 here)
          (subst
            (λ o.
              Fits o (total (is_on id) (before ++ u ∷ after))
                (total (is_holding id) (before ++ u ∷ after)))
            (sym now) at_id)
    | inr there ↦
        let (same_on, same_holding) = on_others k there in
        let now : lock_of m' k ≡ lock_of m k =
          lock_set k ∙ ap (λ b. if b then l else lock_of m k) there in
        unchanged (lock_of m k) (lock_of m' k) now
          (omega (arith, same_on, total-replaced (is_on k) before after t u))
          (omega (arith, same_holding, total-replaced (is_holding k) before after t u)) (fits k)
  ]

module _ (m : Manager) (id : Bytes) (a : ℕ) (single : IsSingle m)
    (mapped : lookup id m.locks ≡ some a) where
  -- Another ID has another lock.
  pub apart : (b : ℕ) (k : Bytes) → (id == k) ≡ false → lookup k m.locks ≡ some b → (a == b) ≡ false
  apart b k there known = elim (Bool-cases (a == b)) [
    | inr other ↦ other
    | inl same ↦
        let equal = single id k a mapped (known ∙ ap some (sym ((==_iff a b).0 same))) in
        absurd (cc (there, (==_iff id k).1 equal))
  ]

  pub lock_of-set_lock :
      (l : SessionLock) (k : Bytes)
      → lock_of (set_lock a l m) k ≡ (if id == k then some l else lock_of m k)
  lock_of-set_lock l k = elim (Bool-cases (id == k)) [
    | inl here ↦
        let now : lookup k m.locks ≡ some a =
          subst (λ j. lookup j m.locks ≡ some a) ((==_iff id k).0 here) mapped in
        rw (here, now, (==_iff a a).1 refl) refl
    | inr there ↦ elim (Option-cases (lookup k m.locks)) [
      | inl none_there ↦ rw (there, none_there) refl
      | inr (b, known) ↦
          let other : (a == b) ≡ false = apart b k there known in rw (there, known, other) refl
    ]
  ]

is_holding_on : (k : Bytes) (t : Thread) → is_holding k t ≤ is_on k t
is_holding_on k outside = omega arith
is_holding_on k gone = omega arith
is_holding_on k (waiting id a) = omega arith
is_holding_on k (holding id a) = omega arith
is_holding_on k (leaving id a) = omega arith

pub holding_on : (k : Bytes) (ts : List Thread) → total (is_holding k) ts ≤ total (is_on k) ts
holding_on k [] = omega arith
holding_on k (t ∷ ts) = omega (arith, is_holding_on k t, holding_on k ts)

-- Where no thread is on an ID, the map may change there.
pub known_elsewhere :
    (locks locks' : Assoc Bytes ℕ) (id : Bytes) (ts : List Thread)
    → ((k : Bytes) → (id == k) ≡ false → lookup k locks' ≡ lookup k locks)
    → total (is_on id) ts ≡ 0
    → All (Knows locks) ts
    → All (Knows locks') ts
known_elsewhere locks locks' id [] same none_on known = tt
known_elsewhere locks locks' id (t ∷ ts) same none_on (knows, known) = (
  one t (omega (arith, none_on)) knows,
  known_elsewhere locks locks' id ts same (omega (arith, none_on)) known,
)
  where
    moved :
        (j : Bytes) (a : ℕ) → bit (id == j) ≡ 0 → lookup j locks ≡ some a → lookup j locks' ≡ some a
    moved j a off knows = elim (Bool-cases (id == j)) [
      | inl on ↦ absurd (omega (arith, off, ap bit on))
      | inr other ↦ same j other ∙ knows
    ]

    flip : (j : Bytes) → bit (j == id) ≡ 0 → bit (id == j) ≡ 0
    flip j h = ground (arith, h, ==_iff j id, ==_iff id j)

    one : (t : Thread) → is_on id t ≡ 0 → Knows locks t → Knows locks' t
    one outside off knows = tt
    one gone off knows = tt
    one (waiting j a) off knows = moved j a (flip j off) knows
    one (holding j a) off knows = moved j a (flip j off) knows
    one (leaving j a) off knows = moved j a (flip j off) knows
