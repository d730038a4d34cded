-- ===== src/Sessions/Locks/Held.antt =====
-- The locks of runtime/sessions/manager.go in every interleaving of its callers.
use serpe.Base.{
  ℕ, zero, suc, ◌+◌, ◌≡◌, refl, none, some, [], Bytes, bytes_eq, lookup, Option-cases, ◌⊎◌, inl,
  inr, arith, total, All, All-middle, subst,
}
use serpe.Sessions.Locks.{
  Thread, Callers, Step, asks, takes, gives_up, gives_back, leaves, outsiders, outside, waiting,
  holding, leaving, Reached, initial, next,
}
use serpe.Sessions.Locks.Exclusive.{bit, is_on, is_holding, Knows, Fits, lock_at, IsExclusive}
use serpe.Sessions.Locks.Asked.{asks-IsExclusive}
use serpe.Sessions.Locks.Steps.{takes-IsExclusive, gives_back-IsExclusive, release-IsExclusive}

Step-IsExclusive :
    (g h : Callers) → Step g h → IsExclusive g.manager g.threads → IsExclusive h.manager h.threads
Step-IsExclusive _ _ (asks m before after id) i = asks-IsExclusive m before after id i
Step-IsExclusive _ _ (takes m before after id a there) i =
    takes-IsExclusive m before after id a
      (All-middle (Knows m.locks) before (waiting id a) after i.known) there i
Step-IsExclusive _ _ (gives_up m before after id a) i =
    release-IsExclusive m before after id a (waiting id a)
      (All-middle (Knows m.locks) before (waiting id a) after i.known) (λ k. refl) (λ k. refl) i
Step-IsExclusive _ _ (gives_back m before after id a) i =
    gives_back-IsExclusive m before after id a
      (All-middle (Knows m.locks) before (holding id a) after i.known) i
Step-IsExclusive _ _ (leaves m before after id a) i =
    release-IsExclusive m before after id a (leaving id a)
      (All-middle (Knows m.locks) before (leaving id a) after i.known) (λ k. refl) (λ k. refl) i

outsiders-total : (f : Thread → ℕ) (n : ℕ) → f outside ≡ 0 → total f (outsiders n) ≡ 0
outsiders-total f zero h = refl
outsiders-total f (suc n) h = omega (arith, h, outsiders-total f n h)

outsiders-Knows : (n : ℕ) → All (Knows []) (outsiders n)
outsiders-Knows zero = tt
outsiders-Knows (suc n) = (tt, outsiders-Knows n)

Reached-IsExclusive : (g : Callers) → Reached g → IsExclusive g.manager g.threads
unfolding lookup
Reached-IsExclusive _ (initial n) = record {
  fits = λ k. (outsiders-total (is_on k) n refl, outsiders-total (is_holding k) n refl);
  known = outsiders-Knows n;
  single = λ i j a left right. absurd (cc (left));
  used = λ k a known. absurd (cc (known));
}
Reached-IsExclusive _ (next {g} {h} r s) = Step-IsExclusive g h s (Reached-IsExclusive g r)

-- In every reachable state the threads on an ID share the lock that the map has for it: either its token
-- is there and no thread holds the ID, or exactly one thread holds it. Where no thread is on an ID, the
-- map has no lock for it.
pub Reached-held_once :
    (g : Callers) (id : Bytes)
    → Reached g
    → ((total (is_on id) g.threads ≡ 0) × (lookup id g.manager.locks ≡ none))
      ⊎ ((a : ℕ) × (lookup id g.manager.locks ≡ some a)
          × (total (is_holding id) g.threads + bit (g.manager.heap a).token ≡ 1)
          × ((g.manager.heap a).refs ≡ total (is_on id) g.threads)
          × All (Knows g.manager.locks) g.threads)
Reached-held_once g id r =
    let i = Reached-IsExclusive g r in
    elim (Option-cases (lookup id g.manager.locks)) [
      | inl absent ↦
          let fits =
            subst
              (λ o.
                Fits (lock_at g.manager.heap o) (total (is_on id) g.threads)
                  (total (is_holding id) g.threads))
              absent (i.fits id) in
          inl (fits.0, absent)
      | inr (a, mapped) ↦
          let fits =
            subst
              (λ o.
                Fits (lock_at g.manager.heap o) (total (is_on id) g.threads)
                  (total (is_holding id) g.threads))
              mapped (i.fits id) in
          inr (a, mapped, fits.2, fits.0, i.known)
    ]
