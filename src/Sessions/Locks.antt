-- ===== src/Sessions/Locks.antt =====
-- The locks of runtime/sessions/manager.go, one for each session ID that a caller asks for. A lock is an
-- object of its own: the map has its address, and a caller keeps the address when the map has dropped
-- it. Each region under the mutex, and each send or receive of a token, is one step of its thread.
pub mod Exclusive
pub mod Steps
pub mod Asked
pub mod Held
pub mod Two
pub mod Shape
pub mod Turns
pub mod Turning
pub mod Progress
use serpe.Base.{
  ℕ, zero, suc, ◌+◌, ◌-◌, ◌≡◌, Bool, true, false, ◌&&◌, Option, none, some, List, [], ◌∷◌, ◌++◌,
  ◌==◌, nat_eq, if◌then◌else◌, Bytes, bytes_eq, bytes_beq, Assoc, lookup, put, remove,
}

pub record SessionLock : Type 0 where
  -- whether the channel has its token
  pub token : Bool
  pub refs : ℕ

pub record Manager : Type 0 where
  pub locks : Assoc Bytes ℕ
  pub heap : ℕ → SessionLock
  -- the address of the next lock
  pub free : ℕ

abbrev pub set_lock : ℕ → SessionLock → Manager → Manager
set_lock a l m = record m { heap = λ b. if a == b then l else m.heap b }

-- The first region of `acquire`: the lock of an ID, and a reference to it.
unfoldable pub add_ref : Bytes → Manager → Manager × ℕ
unfolding lookup put bytes_beq
add_ref id m = elim (lookup id m.locks) [
  | none ↦ (
    set_lock m.free (record { token = true; refs = 1 })
        (record m { locks = put id m.free m.locks; free = suc m.free }),
    m.free,
  )
  | some a ↦ (set_lock a (record { token = (m.heap a).token; refs = suc (m.heap a).refs }) m, a)
]

abbrev pub set_token : Bool → ℕ → Manager → Manager
set_token token a m = set_lock a (record { token = token; refs = (m.heap a).refs }) m

-- `releaseRef`
unfoldable pub release_ref : Bytes → ℕ → Manager → Manager
unfolding lookup remove bytes_beq
release_ref id a m =
    let refs : ℕ = (m.heap a).refs - 1 in
    let dropped : Manager = set_lock a (record { token = (m.heap a).token; refs = refs }) m in
    elim (lookup id m.locks) [
      | none ↦ dropped
      | some b ↦
          if refs == 0 && b == a then record dropped { locks = remove id m.locks } else dropped
    ]

-- A caller: before `acquire`, waiting in it for the token of a lock, holding the token, with the token
-- given back but not the reference, and at the end.
pub data Thread : Type 0 where
  outside gone : Thread
  waiting holding leaving : Bytes → ℕ → Thread

pub record Callers : Type 0 where
  pub manager : Manager
  pub threads : List Thread

abbrev pub callers : Manager → List Thread → Callers
callers m ts = record { manager = m; threads = ts }

pub data Step : Callers → Callers → Type 0 where
  asks :
      (m : Manager) (before after : List Thread) (id : Bytes)
      → Step
          (callers m (before ++ outside ∷ after))
          (callers (add_ref id m).0 (before ++ waiting id (add_ref id m).1 ∷ after))
  takes :
      (m : Manager) (before after : List Thread) (id : Bytes) (a : ℕ)
      → (m.heap a).token ≡ true
      → Step
          (callers m (before ++ waiting id a ∷ after))
          (callers (set_token false a m) (before ++ holding id a ∷ after))
  gives_up :
      (m : Manager) (before after : List Thread) (id : Bytes) (a : ℕ)
      → Step
          (callers m (before ++ waiting id a ∷ after))
          (callers (release_ref id a m) (before ++ gone ∷ after))
  gives_back :
      (m : Manager) (before after : List Thread) (id : Bytes) (a : ℕ)
      → Step
          (callers m (before ++ holding id a ∷ after))
          (callers (set_token true a m) (before ++ leaving id a ∷ after))
  leaves :
      (m : Manager) (before after : List Thread) (id : Bytes) (a : ℕ)
      → Step
          (callers m (before ++ leaving id a ∷ after))
          (callers (release_ref id a m) (before ++ gone ∷ after))

abbrev pub new_locks : Manager
new_locks = record { locks = []; heap = λ a. record { token = false; refs = 0 }; free = 0 }

abbrev pub outsiders : ℕ → List Thread
outsiders zero = []
outsiders (suc n) = outside ∷ outsiders n

pub data Reached : Callers → Type 0 where
  initial : (n : ℕ) → Reached (callers new_locks (outsiders n))
  next : {g h : Callers} → Reached g → Step g h → Reached h
