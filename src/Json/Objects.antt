-- ===== src/Json/Objects.antt =====
-- parseObject of internal/jsonvalue/parse.go keeps the budgets, and repeats no key.
use serpe.Base.{
  ℕ, zero, suc, ◌≤◌, ◌<◌, ◌≡◌, refl, inl, inr, false, not, ◌||◌, none, [], ◌∷◌, ◌==◌, ==_iff,
  nat_eq, leb, length, Bytes, bytes_eq, Assoc, has, put, lookup-put, arith, ap, Bool-cases,
}
use serpe.Json.{Value, Members, no_members, member, Limits, Outcome, find_member}
use serpe.Json.Text.{parse_string}
use serpe.Json.Parse.{
  Parser, Counted, Mark, comma, close, other, mark_of, skip_space, after_key, key_part, object_mark,
  after_member, members,
}
use serpe.Json.Ensures.{Ensures, Ensures-bind, Ensures-map, Ensures-weaken, Shorter}
use serpe.Json.Reads.{parse_string-Shorter}
use serpe.Json.Keeps.{
  nodes_of, Keeps, KeepsMembers, skip_space-le, Reads, Avoids, ReadsMembers, ReadsBelow,
}

after_key-Ensures :
    (key : Bytes) (nodes : ℕ) (s : Bytes)
    → Ensures
        (λ (read : Counted Bytes) rest. (read ≡ (key, nodes)) × (length rest < length s))
        (after_key key nodes s)
unfolding after_key
after_key-Ensures key nodes [] = λ h. cc (h)
after_key-Ensures key nodes (c ∷ s) = elim (Bool-cases (c == b':')) [
  | inl colon ↦ rw (colon, after_key) (refl, omega arith)
  | inr wrong ↦ rw (wrong, after_key) (λ h. cc (h))
]

module _ (l : Limits ℕ) where
  -- A key that has not been seen, with one node counted for it.
  record IsKey (seen : Assoc Bytes (Unit {0})) (nodes : ℕ) (s : Bytes) (read : Counted Bytes)
      (rest : Bytes) : Type 0 where
    shorter : length rest < length s
    counted : read.1 ≡ suc nodes
    unseen : has read.0 seen ≡ false

  key_part-IsKey :
      (seen : Assoc Bytes (Unit {0})) (nodes : ℕ) (s : Bytes)
      → Ensures (IsKey seen nodes s) (key_part l seen nodes s)
  unfolding key_part
  key_part-IsKey seen nodes [] = λ h. cc (h)
  key_part-IsKey seen nodes (c ∷ s) = elim (Bool-cases (not (c == b'"'))) [
    | inl bare ↦ rw (bare, key_part) (λ h. cc (h))
    | inr quoted ↦ elim (Bool-cases (leb l.max_nodes nodes)) [
      | inl full ↦ rw (quoted, full, key_part) (λ h. cc (h))
      | inr room ↦
          rw (quoted, room, key_part)
            (Ensures-bind (Shorter (c ∷ s)) (IsKey seen nodes (c ∷ s)) (parse_string (c ∷ s)) _
              (parse_string-Shorter (c ∷ s))
              (λ key rest shorter. elim (Bool-cases (has key seen)) [
                | inl known ↦ rw known (λ h. cc (h))
                | inr new ↦ rw new (
                    Ensures-weaken (after_key key (suc nodes) (skip_space rest))
                      (after_key-Ensures key (suc nodes) (skip_space rest))
                      (λ read t h. record {
                        shorter = omega (arith, shorter, h.1, skip_space-le rest);
                        counted = ap (λ (read : Counted Bytes). read.1) h.0;
                        unseen = rw (ap (λ (read : Counted Bytes). read.0) h.0) new;
                      }))
              ]))
    ]
  ]

  has-put_self :
      (k j : Bytes) (seen : Assoc Bytes (Unit {0})) → has k (put j tt seen) ≡ (j == k || has k seen)
  has-put_self k j seen = ground (arith, lookup-put j k tt seen)

  -- The members behind a key, where the key is seen from then on.
  member-good :
      (depth : ℕ) (seen : Assoc Bytes (Unit {0})) (key : Bytes) (v : Value) (ms : Members)
      → has key seen ≡ false
      → Keeps l depth v
      → KeepsMembers l depth ms × Avoids l (put key tt seen) ms
      → KeepsMembers l depth (member key v ms) × Avoids l seen (member key v ms)
  unfolding Keeps find_member
  member-good depth seen key v ms unseen good (keeps, avoids) = (
    (avoids key (ground (arith, has-put_self key key seen, (==_iff key key).1 refl)), good, keeps),
    λ k known. elim (Bool-cases (key == k)) [
      | inl same ↦
          absurd (cc (ap (λ (j : Bytes). has j seen) ((==_iff key k).0 same), unseen, known))
      | inr new ↦ rw new (avoids k (rw (has-put_self k key seen, new) known))
    ],
  )

  module _ (k depth : ℕ) (p : Parser) (reads : ReadsBelow l k depth p) where
    abbrev Next : Assoc Bytes (Unit {0}) → ℕ → Bytes → Outcome (Counted Members) → Type 0
    Next seen nodes s = Ensures (ReadsMembers l depth seen nodes s)

    object_mark-Reads :
        (m : Mark) (seen : Assoc Bytes (Unit {0})) (key : Bytes) (v : Counted Value)
        (next : ℕ → Bytes → Outcome (Counted Members)) (nodes : ℕ) (s t rest : Bytes)
        → has key seen ≡ false
        → Reads l depth (suc nodes) s v rest
        → suc (length t) ≤ length rest
        → Next (put key tt seen) v.1 t (next v.1 t)
        → Next seen nodes s (object_mark m key v next t)
    unfolding object_mark nodes_of Keeps
    object_mark-Reads comma seen key v next nodes s t rest unseen r le h =
        Ensures-map (ReadsMembers l depth (put key tt seen) v.1 t)
          (ReadsMembers l depth seen nodes s) _ (next v.1 t) h
          λ more u m. record {
            shorter = omega (arith, m.shorter, r.shorter, le);
            counted = omega (arith, m.counted, r.counted);
            within = m.within;
            good = member-good depth seen key v.0 more.0 unseen r.good m.good;
          }
    object_mark-Reads close seen key v next nodes s t rest unseen r le h = record {
      shorter = omega (arith, r.shorter, le);
      counted = omega (arith, r.counted);
      within = r.within;
      good = member-good depth seen key v.0 no_members unseen r.good (tt, λ k known. find-none k);
    }
      where
        find-none : (k : Bytes) → find_member k no_members ≡ none
        find-none k = ground arith
    object_mark-Reads other seen key v next nodes s t rest unseen r le h = λ e. cc (e)

    after_member-Reads :
        (seen : Assoc Bytes (Unit {0})) (key : Bytes) (v : Counted Value)
        (next : ℕ → Bytes → Outcome (Counted Members)) (nodes : ℕ) (s t rest : Bytes)
        → has key seen ≡ false
        → Reads l depth (suc nodes) s v rest
        → length t ≤ length rest
        → ((u : Bytes) → length u < length t → Next (put key tt seen) v.1 u (next v.1 u))
        → Next seen nodes s (after_member key v next t)
    unfolding after_member
    after_member-Reads seen key v next nodes s [] rest unseen r le h = λ e. cc (e)
    after_member-Reads seen key v next nodes s (c ∷ t) rest unseen r le h =
        object_mark-Reads (mark_of b'}' c) seen key v next nodes s t rest unseen r
          (omega (arith, le)) (h t (omega arith))

    pub members-Reads :
        (fuel : ℕ) (seen : Assoc Bytes (Unit {0})) (nodes : ℕ) (s : Bytes)
        → length s < fuel
        → length s < k
        → Next seen nodes s (members fuel l p seen nodes s)
    unfolding members
    members-Reads zero seen nodes s le lt = absurd (omega (arith, le))
    members-Reads (suc fuel) seen nodes s le lt =
        Ensures-bind (IsKey seen nodes (skip_space s)) (ReadsMembers l depth seen nodes s)
          (key_part l seen nodes (skip_space s)) _ (key_part-IsKey seen nodes (skip_space s))
          λ key rest q.
            Ensures-bind (Reads l depth key.1 (skip_space rest)) (ReadsMembers l depth seen nodes s)
              (p key.1 (skip_space rest)) _
              (reads key.1 (skip_space rest)
                (omega (arith, q.shorter, skip_space-le s, skip_space-le rest, lt)))
              λ v more r.
                let here : Reads l depth (suc nodes) s v more = record {
                  shorter =
                      omega (arith, r.shorter, q.shorter, skip_space-le rest, skip_space-le s);
                  counted = omega (arith, r.counted, q.counted);
                  within = r.within;
                  good = r.good;
                } in
                after_member-Reads seen key.0 v (members fuel l p (put key.0 tt seen)) nodes s
                  (skip_space more) more q.unseen here (skip_space-le more)
                  λ u shorter.
                    members-Reads fuel (put key.0 tt seen) v.1 u
                      (omega (arith, shorter, skip_space-le more, here.shorter, le))
                      (omega (arith, shorter, skip_space-le more, here.shorter, lt))
