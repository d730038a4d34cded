-- ===== src/Json/Sorted.antt =====
-- The canonical text of a value of internal/jsonvalue does not depend on the order of the members of the
-- objects in it.
use serpe.Base.{
  ◌≡◌, ◌≢◌, refl, ap, sym, ◌∙◌, inl, inr, Bool, true, false, Option, none, some, List, [], ◌∷◌,
  Bytes, bytes_ltb, bytes_ltb_total, bytes_ltb_asym, bytes_le_lt_trans, arith, Bool-cases,
}
use serpe.Json.{Value, array, object, Values, nil, cons, Members, no_members, member, find_member}
use serpe.Json.Write.{
  Written, insert_member, sort_members, write_canonical, write_elements, write_members, bind,
  join_members,
}

insert_after :
    (w u : Written) (ws : List Written)
    → bytes_ltb u.0 w.0 ≡ true
    → insert_member w (u ∷ ws) ≡ u ∷ insert_member w ws
unfolding insert_member
insert_after w u ws h = rw h refl

insert_before :
    (w u : Written) (ws : List Written)
    → bytes_ltb u.0 w.0 ≡ false
    → insert_member w (u ∷ ws) ≡ w ∷ u ∷ ws
unfolding insert_member
insert_before w u ws h = rw h refl

-- `v` is inserted behind `w`, where `w` is the less.
insert_ordered :
    (v w u : Written) (ws : List Written)
    → bytes_ltb u.0 v.0 ≡ false
    → bytes_ltb u.0 w.0 ≡ false
    → bytes_ltb v.0 w.0 ≡ true
    → insert_member v (insert_member w (u ∷ ws)) ≡ insert_member w (insert_member v (u ∷ ws))
insert_ordered v w u ws vu wu lt =
    rw
      (
        insert_before w u ws wu,
        insert_before v u ws vu,
        insert_after w v (u ∷ ws) lt,
        insert_before v w (u ∷ ws) (bytes_ltb_asym v.0 w.0 lt),
        insert_before w u ws wu,
      )
      refl

-- Members with different keys may be inserted in any order.
insert_member_comm :
    (v w : Written) (ws : List Written)
    → v.0 ≢ w.0
    → insert_member v (insert_member w ws) ≡ insert_member w (insert_member v ws)
insert_member_comm v w [] ne = elim (Bool-cases (bytes_ltb v.0 w.0)) [
  | inl lt ↦ unfold insert_member in rw (lt, bytes_ltb_asym v.0 w.0 lt) refl
  | inr ge ↦ elim (Bool-cases (bytes_ltb w.0 v.0)) [
    | inl gt ↦ unfold insert_member in rw (ge, gt) refl
    | inr le ↦ absurd (ne (bytes_ltb_total v.0 w.0 ge le))
  ]
]
insert_member_comm v w (u ∷ ws) ne = elim (Bool-cases (bytes_ltb u.0 w.0)) [
  | inl uw ↦ elim (Bool-cases (bytes_ltb u.0 v.0)) [
    | inl uv ↦
        rw
          (
            insert_after w u ws uw,
            insert_after v u ws uv,
            insert_after v u (insert_member w ws) uv,
            insert_after w u (insert_member v ws) uw,
            insert_member_comm v w ws ne,
          )
          refl
    | inr vu ↦
        rw
          (
            insert_after w u ws uw,
            insert_before v u ws vu,
            insert_before v u (insert_member w ws) vu,
            insert_after w v (u ∷ ws) (bytes_le_lt_trans v.0 u.0 w.0 vu uw),
            insert_after w u ws uw,
          )
          refl
  ]
  | inr wu ↦ elim (Bool-cases (bytes_ltb u.0 v.0)) [
    | inl uv ↦
        rw
          (
            insert_before w u ws wu,
            insert_after v u ws uv,
            insert_after v w (u ∷ ws) (bytes_le_lt_trans w.0 u.0 v.0 wu uv),
            insert_after v u ws uv,
            insert_before w u (insert_member v ws) wu,
          )
          refl
    | inr vu ↦ elim (Bool-cases (bytes_ltb v.0 w.0)) [
      | inl lt ↦ insert_ordered v w u ws vu wu lt
      | inr ge ↦ elim (Bool-cases (bytes_ltb w.0 v.0)) [
        | inl gt ↦ sym (insert_ordered w v u ws wu vu gt)
        | inr le ↦ absurd (ne (bytes_ltb_total v.0 w.0 ge le))
      ]
    ]
  ]
]

-- No key stands twice.
abbrev pub KeysOnce : Members → Type 0
KeysOnce no_members = Unit
KeysOnce (member k v ms) = (find_member k ms ≡ none) × KeysOnce ms

-- Values that differ in the order of the members of objects in them, at any depth, where no key of such
-- an object stands twice.
mutual
  pub data Alike : Value → Value → Type 0 where
    same : (v : Value) → Alike v v
    arrays : {vs ws : Values} → AlikeAll vs ws → Alike (array vs) (array ws)
    objects : {ms ns : Members} → KeysOnce ms → Rearranged ms ns → Alike (object ms) (object ns)

  pub data AlikeAll : Values → Values → Type 0 where
    alike_nil : AlikeAll nil nil
    alike_cons :
        {v w : Value} {vs ws : Values}
        → Alike v w
        → AlikeAll vs ws
        → AlikeAll (cons v vs) (cons w ws)

  pub data Rearranged : Members → Members → Type 0 where
    none_left : Rearranged no_members no_members
    swap :
        (k j : Bytes) (v w : Value) (ms : Members)
        → k ≢ j
        → Rearranged (member k v (member j w ms)) (member j w (member k v ms))
    keep :
        (k : Bytes) {v w : Value} {ms ns : Members}
        → Alike v w
        → Rearranged ms ns
        → Rearranged (member k v ms) (member k w ns)
    next : {ms ns os : Members} → Rearranged ms ns → Rearranged ns os → Rearranged ms os

-- The members as they are written.
abbrev sorted : Members → Option (List Written)
sorted ms = bind (write_members ms) (λ ws. some (sort_members ws))

swap-sorted :
    (k j : Bytes) (a b : Option Bytes) (rest : Option (List Written))
    → k ≢ j
    → bind
        (bind a (λ v.
          bind (bind b (λ w. bind rest (λ ws. some ((j, w) ∷ ws)))) (λ ws. some ((k, v) ∷ ws))))
        (λ ws. some (sort_members ws))
      ≡ bind
          (bind b (λ w.
            bind (bind a (λ v. bind rest (λ ws. some ((k, v) ∷ ws)))) (λ ws. some ((j, w) ∷ ws))))
          (λ ws. some (sort_members ws))
unfolding sort_members
swap-sorted k j none none rest ne = refl
swap-sorted k j none (some w) rest ne = refl
swap-sorted k j (some v) none rest ne = refl
swap-sorted k j (some v) (some w) none ne = refl
swap-sorted k j (some v) (some w) (some ws) ne =
    ap some (insert_member_comm (k, v) (j, w) (sort_members ws) ne)

keep-sorted :
    (k : Bytes) (a : Option Bytes) (ms ns : Option (List Written))
    → bind ms (λ ws. some (sort_members ws)) ≡ bind ns (λ ws. some (sort_members ws))
    → bind (bind a (λ v. bind ms (λ ws. some ((k, v) ∷ ws)))) (λ ws. some (sort_members ws))
      ≡ bind (bind a (λ v. bind ns (λ ws. some ((k, v) ∷ ws)))) (λ ws. some (sort_members ws))
unfolding sort_members
keep-sorted k none ms ns h = refl
keep-sorted k (some v) none none h = refl
keep-sorted k (some v) none (some ws) h = cc
keep-sorted k (some v) (some ws) none h = cc
keep-sorted k (some v) (some ws) (some us) h = ground (arith, h)

joined-sorted :
    (us ws : Option (List Written))
    → bind us (λ ws. some (sort_members ws)) ≡ bind ws (λ ws. some (sort_members ws))
    → bind us (λ ws. some (b'{' ∷ join_members true (sort_members ws)))
      ≡ bind ws (λ ws. some (b'{' ∷ join_members true (sort_members ws)))
joined-sorted none none h = refl
joined-sorted none (some ws) h = cc
joined-sorted (some us) none h = cc
joined-sorted (some us) (some ws) h = cc

mutual
  unfolding write_canonical

  Alike-written : {v w : Value} → Alike v w → write_canonical v ≡ write_canonical w
  Alike-written (same v) = refl
  Alike-written (arrays a) = ap (λ o. bind o (λ text. some (b'[' ∷ text))) (AlikeAll-written true a)
  Alike-written (objects {ms} {ns} once r) =
      joined-sorted (write_members ms) (write_members ns) (Rearranged-sorted r)

  AlikeAll-written :
      (first : Bool) {vs ws : Values}
      → AlikeAll vs ws
      → write_elements first vs ≡ write_elements first ws
  AlikeAll-written first alike_nil = refl
  AlikeAll-written first (alike_cons a rest) =
      rw (Alike-written a, AlikeAll-written false rest) refl

  Rearranged-sorted : {ms ns : Members} → Rearranged ms ns → sorted ms ≡ sorted ns
  Rearranged-sorted none_left = refl
  Rearranged-sorted (swap k j v w ms ne) =
      swap-sorted k j (write_canonical v) (write_canonical w) (write_members ms) ne
  Rearranged-sorted (keep k {v} {w} {ms} {ns} a r) =
      keep-sorted k (write_canonical v) (write_members ms) (write_members ns) (Rearranged-sorted r)
      ∙ ap
          (λ o.
            bind (bind o (λ v. bind (write_members ns) (λ ws. some ((k, v) ∷ ws))))
              (λ ws. some (sort_members ws)))
          (Alike-written a)
  Rearranged-sorted (next r s) = Rearranged-sorted r ∙ Rearranged-sorted s

-- Values that differ only in the order of the members of objects, at any depth, have the same canonical
-- text, or none, where no key of a rearranged object stands twice.
pub write_canonical-Alike : (v w : Value) → Alike v w → write_canonical v ≡ write_canonical w
write_canonical-Alike v w a = Alike-written a
