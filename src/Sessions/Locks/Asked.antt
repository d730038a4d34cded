-- ===== src/Sessions/Locks/Asked.antt =====
-- A caller of runtime/sessions/manager.go asks for the lock of an ID, which may be a new one.
use serpe.Base.{
  ℕ, suc, ◌≡◌, refl, sym, subst, ap, ◌∙◌, ◌⊎◌, inl, inr, true, false, none, some, List, ◌∷◌, ◌++◌,
  ◌==◌, ==_iff, nat_eq, if◌then◌else◌, Bytes, bytes_eq, lookup, put, lookup-put, Bool-cases,
  Option-cases, arith, total, total-replaced, All-replaced,
}
use serpe.Sessions.Locks.{Manager, set_lock, add_ref, Thread, outside, waiting}
use serpe.Sessions.Locks.Exclusive.{
  bit, is_on, is_holding, Knows, Fits, lock_of, IsSingle, IsExclusive, step-Fits, known_elsewhere,
}
use serpe.Sessions.Locks.Steps.{again-IsExclusive}

module _ (m : Manager) (before after : List Thread) where
  abbrev at : Thread → List Thread
  at t = before ++ t ∷ after

  -- The first caller of an ID makes its lock.
  module _ (id : Bytes) (i : IsExclusive m (at outside)) where
    abbrev made : Manager
    made =
        set_lock m.free (record { token = true; refs = 1 })
          (record m { locks = put id m.free m.locks; free = suc m.free })

    lock_made :
        (k : Bytes)
        → lock_of made k
          ≡ (if id == k then some (record { token = true; refs = 1 }) else lock_of m k)
    lock_made k = elim (Bool-cases (id == k)) [
      | inl same ↦
          rw (same, lookup-put id k m.free m.locks, same, (==_iff m.free m.free).1 refl) refl
      | inr there ↦ elim (Option-cases (lookup k m.locks)) [
        | inl none_there ↦ rw (there, lookup-put id k m.free m.locks, there, none_there) refl
        | inr (b, known) ↦
            let old : (m.free == b) ≡ false = ground (arith, i.used k b known) in
            rw (there, lookup-put id k m.free m.locks, there, known, old) refl
      ]
    ]

    put_cases :
        (k : Bytes) (b : ℕ)
        → lookup k (put id m.free m.locks) ≡ some b
        → ((id ≡ k) × (b ≡ m.free)) ⊎ (lookup k m.locks ≡ some b)
    put_cases k b h = elim (Bool-cases (id == k)) [
      | inl same ↦
          inl ((==_iff id k).0 same, ground (arith, h, same, lookup-put id k m.free m.locks))
      | inr there ↦ inr (ground (arith, h, there, lookup-put id k m.free m.locks))
    ]

    made-IsSingle : IsSingle made
    made-IsSingle j k b left right = elim (put_cases j b left) [
      | inl (same, new) ↦ elim (put_cases k b right) [
        | inl (same', new') ↦ sym same ∙ same'
        | inr old ↦ absurd (omega (arith, new, i.used k b old))
      ]
      | inr old ↦ elim (put_cases k b right) [
        | inl (same', new') ↦ absurd (omega (arith, new', i.used j b old))
        | inr old' ↦ i.single j k b old old'
      ]
    ]

    made-IsExclusive : lookup id m.locks ≡ none → IsExclusive made (at (waiting id m.free))
    made-IsExclusive absent =
        let on = total-replaced (is_on id) before after outside (waiting id m.free) in
        let holds = total-replaced (is_holding id) before after outside (waiting id m.free) in
        let here = ap bit ((==_iff id id).1 refl) in
        let free_lock : lock_of m id ≡ none = rw absent refl in
        let fits_id : Fits none (total (is_on id) (at outside))
            (total (is_holding id) (at outside)) =
          subst (λ o. Fits o (total (is_on id) (at outside)) (total (is_holding id) (at outside)))
            free_lock (i.fits id) in
        record {
          fits =
              step-Fits m made before after outside (waiting id m.free) id
                (some (record { token = true; refs = 1 })) lock_made
                (λ k other. (ap bit other, refl))
                (
                  omega (arith, fits_id.0, on, here),
                  omega (arith, fits_id.0, on, here),
                  omega (arith, fits_id.1, holds),
                )
                i.fits;
          known =
              All-replaced (Knows (put id m.free m.locks)) before after outside (waiting id m.free)
                (rw (lookup-put id id m.free m.locks, (==_iff id id).1 refl) refl)
                (known_elsewhere m.locks (put id m.free m.locks) id (at outside)
                  (λ k other. rw (lookup-put id k m.free m.locks, other) refl) fits_id.0 i.known);
          single = made-IsSingle;
          used = λ k b known. elim (put_cases k b known) [
            | inl (same, new) ↦ omega (arith, new)
            | inr old ↦ omega (arith, i.used k b old)
          ];
        }

    pub asks-IsExclusive : IsExclusive (add_ref id m).0 (at (waiting id (add_ref id m).1))
    unfolding add_ref
    asks-IsExclusive = elim (Option-cases (lookup id m.locks)) [
      | inr (a, mapped) ↦ rw (mapped, add_ref) (again-IsExclusive m before after id a mapped i)
      | inl absent ↦ rw (absent, add_ref) (made-IsExclusive absent)
    ]
