-- ===== src/Sessions/Locks/Steps.antt =====
-- Every step of a caller of runtime/sessions/manager.go keeps its locks exclusive.
use serpe.Base.{
  ◌+◌, ℕ, suc, ◌-◌, ◌≤◌, ◌≡◌, refl, sym, subst, ap, ◌∙◌, inl, inr, true, false, none, some, List,
  ◌∷◌, ◌++◌, ◌==◌, ==_iff, nat_eq, if◌then◌else◌, Bytes, bytes_eq, lookup, remove, lookup-remove,
  Bool-cases, Option-cases, arith, total, total-replaced, total-middle, All-replaced,
}
use serpe.Sessions.Locks.{
  SessionLock, Manager, set_lock, set_token, release_ref, Thread, outside, gone, waiting, holding,
  leaving,
}
use serpe.Sessions.Locks.Exclusive.{
  unchanged, bit, is_on, is_holding, Knows, Fits, lock_of, IsExclusive, step-Fits, lock_of-set_lock,
  apart, holding_on, known_elsewhere,
}

module _ (m : Manager) (before after : List Thread) where
  abbrev at : Thread → List Thread
  at t = before ++ t ∷ after

  module _ (id : Bytes) (a : ℕ) (mapped : lookup id m.locks ≡ some a) where
    -- A step that keeps the map and changes the lock of its ID, where all that counts of the other
    -- threads is how many are on the ID and how many hold it.
    set_lock-IsExclusive :
        (l : SessionLock) (t u : Thread)
        → ((k : Bytes)
            → (id == k) ≡ false
            → (is_on k u ≡ is_on k t) × (is_holding k u ≡ is_holding k t))
        → Knows m.locks u
        → ((n h : ℕ)
            → Fits (some (m.heap a)) (is_on id t + n) (is_holding id t + h)
            → Fits (some l) (is_on id u + n) (is_holding id u + h))
        → IsExclusive m (at t)
        → IsExclusive (set_lock a l m) (at u)
    set_lock-IsExclusive l t u on_others knows changed i =
        let mapped_lock : lock_of m id ≡ some (m.heap a) = rw mapped refl in
        let n : ℕ = total (is_on id) before + total (is_on id) after in
        let h : ℕ = total (is_holding id) before + total (is_holding id) after in
        record {
          fits =
              step-Fits m (set_lock a l m) before after t u id (some l)
                (lock_of-set_lock m id a i.single mapped l) on_others
                (unchanged (some l) (some l) refl (total-middle (is_on id) before u after)
                  (total-middle (is_holding id) before u after)
                  (changed n h (
                    unchanged (lock_of m id) (some (m.heap a)) (sym mapped_lock)
                      (sym (total-middle (is_on id) before t after))
                      (sym (total-middle (is_holding id) before t after)) (i.fits id))))
                i.fits;
          known = All-replaced (Knows m.locks) before after t u knows i.known;
          single = i.single;
          used = i.used;
        }

    here : bit (id == id) ≡ 1
    here = ap bit ((==_iff id id).1 refl)

    pub again-IsExclusive :
        IsExclusive m (at outside)
        → IsExclusive
            (set_lock a (record { token = (m.heap a).token; refs = suc (m.heap a).refs }) m)
            (at (waiting id a))
    again-IsExclusive =
        set_lock-IsExclusive _ outside (waiting id a) (λ k other. (ap bit other, refl)) mapped
          (λ n h (refs, some_refs, one).
            (omega (arith, refs, here), omega (arith, some_refs), omega (arith, one)))

    pub takes-IsExclusive :
        (m.heap a).token ≡ true
        → IsExclusive m (at (waiting id a))
        → IsExclusive (set_token false a m) (at (holding id a))
    takes-IsExclusive there =
        set_lock-IsExclusive _ (waiting id a) (holding id a) (λ k other. (refl, ap bit other))
          mapped
          (λ n h (refs, some_refs, one). (refs, some_refs, omega (arith, one, here, ap bit there)))

    pub gives_back-IsExclusive :
        IsExclusive m (at (holding id a)) → IsExclusive (set_token true a m) (at (leaving id a))
    gives_back-IsExclusive =
        set_lock-IsExclusive _ (holding id a) (leaving id a) (λ k other. (refl, sym (ap bit other)))
          mapped (λ n h (refs, some_refs, one). (refs, some_refs, omega (arith, one, here)))

    abbrev dropped : Manager
    dropped = set_lock a (record { token = (m.heap a).token; refs = (m.heap a).refs - 1 }) m

    module _ (t : Thread) (on : (k : Bytes) → is_on k t ≡ bit (id == k))
        (empty_handed : (k : Bytes) → is_holding k t ≡ 0) where
      -- Another thread has a reference to the lock.
      drops-IsExclusive :
          ((m.heap a).refs - 1 == 0) ≡ false → IsExclusive m (at t) → IsExclusive dropped (at gone)
      drops-IsExclusive more =
          set_lock-IsExclusive _ t gone
            (λ k other. (sym (on k ∙ ap bit other), sym (empty_handed k))) tt
            (λ n h (refs, some_refs, one). (
              omega (arith, refs, on id, here),
              ground (arith, more, refs, on id, here),
              omega (arith, one, empty_handed id),
            ))

      -- The last reference takes the lock off the map.
      removes-IsExclusive :
          (m.heap a).refs ≤ 1
          → IsExclusive m (at t)
          → IsExclusive (record dropped { locks = remove id m.locks }) (at gone)
      removes-IsExclusive last i =
          let ons = total-replaced (is_on id) before after t gone in
          let held : lock_of m id ≡ some (m.heap a) = rw mapped refl in
          let fits_id : Fits (some (m.heap a)) (total (is_on id) (at t))
              (total (is_holding id) (at t)) =
            subst (λ o. Fits o (total (is_on id) (at t)) (total (is_holding id) (at t))) held
              (i.fits id) in
          let none_on : total (is_on id) (at gone) ≡ 0 =
            omega (arith, fits_id.0, last, ons, on id, here) in
          record {
            fits =
                step-Fits m removed before after t gone id none lock_removed
                  (λ k other. (sym (on k ∙ ap bit other), sym (empty_handed k)))
                  (none_on, omega (arith, none_on, holding_on id (at gone))) i.fits;
            known =
                known_elsewhere m.locks (remove id m.locks) id (at gone)
                  (λ k other. rw (lookup-remove id k m.locks, other) refl) none_on
                  (All-replaced (Knows m.locks) before after t gone tt i.known);
            single = λ j k b left right. i.single j k b (still j b left) (still k b right);
            used = λ k b known. i.used k b (still k b known);
          }
        where
          removed : Manager
          removed = record dropped { locks = remove id m.locks }

          still :
              (k : Bytes) (b : ℕ)
              → lookup k (remove id m.locks) ≡ some b
              → lookup k m.locks ≡ some b
          still k b h = ground (arith, h, lookup-remove id k m.locks)

          lock_removed : (k : Bytes) → lock_of removed k ≡ (if id == k then none else lock_of m k)
          lock_removed k = elim (Bool-cases (id == k)) [
            | inl same ↦ rw (same, lookup-remove id k m.locks, same) refl
            | inr there ↦ elim (Option-cases (lookup k m.locks)) [
              | inl none_there ↦ rw (there, lookup-remove id k m.locks, there, none_there) refl
              | inr (b, known) ↦
                  rw
                    (
                      there,
                      lookup-remove id k m.locks,
                      there,
                      known,
                      apart m id a i.single mapped b k there known,
                    )
                    refl
            ]
          ]

  pub release-IsExclusive :
      (id : Bytes) (a : ℕ) (t : Thread)
      → lookup id m.locks ≡ some a
      → ((k : Bytes) → is_on k t ≡ bit (id == k))
      → ((k : Bytes) → is_holding k t ≡ 0)
      → IsExclusive m (at t)
      → IsExclusive (release_ref id a m) (at gone)
  unfolding release_ref
  release-IsExclusive id a t mapped on empty_handed i =
      elim (Bool-cases ((m.heap a).refs - 1 == 0)) [
        | inl last ↦
            rw (mapped, last, (==_iff a a).1 refl, release_ref)
              (removes-IsExclusive id a mapped t on empty_handed (ground (arith, last)) i)
        | inr more ↦
            rw (mapped, more, release_ref) (drops-IsExclusive id a mapped t on empty_handed more i)
      ]
