-- ===== src/Models/Frame/Counters.antt =====
-- A counter of core/models/stream_limits.go that finds a sum, and the counters of texts and raw JSON.
use serpe.Base.{
  ℕ, ◌+◌, ◌-◌, ◌≤◌, ◌≡◌, refl, inl, inr, ◌∙◌, subst, Bool, true, false, not, ◌&&◌, Option, none,
  some, [], ◌==◌, ltb, leb, if◌then◌else◌, length, Bytes, bytes_eq, valid_string, max_int64, arith,
  Bool-cases,
}
use native.Mathlib.Nat.{add_assoc}
use serpe.Json.{
  Value, null, boolean, number, string, array, object, Values, nil, cons, Members, no_members,
  member, Outcome, done, failed, object_limits,
}
use serpe.Json.Parse.{parse}
use serpe.Models.Frame.{
  Count, ◌>>◌, nothing, fault, node_bytes, add, count_node, count_string, count_bytes, count_value,
  count_values, count_members, count_parsed, is_parsed, count_raw,
}
use serpe.Models.Frame.Sum.{
  Cost, ◌⊕◌, free, unfit, sized, text_cost, bytes_cost, value_cost, values_cost, members_cost,
  parsed_cost, raw_cost,
}

-- What a counter with a limit makes of a cost.
abbrev pub charged : ℕ → Cost → ℕ → Option ℕ
charged max k n = if k.fine && leb (n + k.size) max then some (n + k.size) else none

-- The counter `c` counts the cost `k`.
pub record Sums (max : ℕ) (c : Count) (k : Cost) : Type 0 where
  pub from : (n : ℕ) → n ≤ max → c n ≡ charged max k n

then_charged :
    (max : ℕ) (k j : Cost) (n : ℕ) (c : Option ℕ) (d : Count)
    → c ≡ charged max k n
    → (n + k.size ≤ max → d (n + k.size) ≡ charged max j (n + k.size))
    → (elim c [ none ↦ none | some m ↦ d m ]) ≡ charged max (k ⊕ j) n
then_charged max k j n none d h g = ground arith
then_charged max k j n (some m) d h g =
    let fits : n + k.size ≤ max = ground arith in
    let fine : k.fine ≡ true = ground arith in
    let same : m ≡ n + k.size = ground arith in
    rw same (g fits ∙ rw (fine, ← add_assoc n k.size j.size) refl)

pub from_zero :
    {max : ℕ} {c : Count} {k : Cost}
    → Sums max c k
    → c 0 ≡ (if k.fine && leb k.size max then some k.size else none)
from_zero {max} {c} {k} h =
    subst (λ (m : ℕ). c 0 ≡ (if k.fine && leb m max then some m else none)) {x = 0 + k.size}
      (omega arith) (h.from 0 (omega arith))

infixl 5 ◌>+◌
pub ◌>+◌ :
    {max : ℕ} {c d : Count} {k j : Cost} → Sums max c k → Sums max d j → Sums max (c >> d) (k ⊕ j)
◌>+◌ {max} {c} {d} {k} {j} h g = record {
  from = λ n le. then_charged max k j n (c n) d (h.from n le) (λ fits. g.from (n + k.size) fits);
}

module _ (max : ℕ) (small : max ≤ max_int64) where
  pub add-Sums : (size : ℕ) → Sums max (add max size) (sized size)
  unfolding add
  add-Sums size = record { from = λ n le. ground (arith, small) }

  pub nothing-Sums : Sums max nothing free
  nothing-Sums = record { from = λ n le. ground arith }

  pub fault-Sums : Sums max fault unfit
  fault-Sums = record { from = λ n le. refl }

  pub node-Sums : Sums max (count_node max) (sized node_bytes)
  unfolding count_node
  node-Sums = add-Sums node_bytes

  pub bytes-Sums : (s : Bytes) → Sums max (count_bytes max s) (bytes_cost s)
  unfolding count_bytes
  bytes-Sums s = node-Sums >+ add-Sums (length s)

  pub string-Sums : (s : Bytes) → Sums max (count_string max s) (text_cost s)
  unfolding count_string
  string-Sums s = by_test (valid_string s)
    where
      by_test :
          (b : Bool)
          → Sums max
              (if not b then fault else count_node max >> add max (length s))
              (record { size = node_bytes + length s; fine = b })
      by_test true = node-Sums >+ add-Sums (length s)
      by_test false = record { from = λ n le. refl }

  mutual
    unfolding count_value value_cost

    value-Sums : (v : Value) → Sums max (count_value max v) (value_cost v)
    value-Sums null = node-Sums
    value-Sums (boolean b) = node-Sums
    value-Sums (number lexeme) = node-Sums >+ add-Sums (length lexeme)
    value-Sums (string s) = node-Sums >+ add-Sums (length s)
    value-Sums (array vs) = node-Sums >+ values-Sums vs
    value-Sums (object ms) = node-Sums >+ members-Sums ms

    values-Sums : (vs : Values) → Sums max (count_values max vs) (values_cost vs)
    values-Sums nil = nothing-Sums
    values-Sums (cons v vs) = value-Sums v >+ values-Sums vs

    members-Sums : (ms : Members) → Sums max (count_members max ms) (members_cost ms)
    members-Sums no_members = nothing-Sums
    members-Sums (member key v ms) = string-Sums key >+ value-Sums v >+ members-Sums ms

  parsed-Sums :
      (value : Bytes) (o : Outcome Value)
      → Sums max
          (λ n.
            if ltb (max - n) (length value)
            then none
            else if not (is_parsed o)
            then none
            else (count_bytes max value >> count_parsed max o) n)
          (bytes_cost value ⊕ parsed_cost o)
  parsed-Sums value (failed e) = record { from = λ n le. ground arith }
  parsed-Sums value (done v rest) = record {
    from = λ n le.
        let counted = (bytes-Sums value >+ value-Sums v).from n le in
        elim (Bool-cases (ltb (max - n) (length value))) [
          | inr room ↦ rw room counted
          | inl full ↦ rw full (ground arith)
        ];
  }

  pub raw-Sums : (value : Bytes) → Sums max (count_raw max value) (raw_cost value)
  unfolding count_raw raw_cost
  raw-Sums value = elim (Bool-cases (value == [])) [
    | inl missing ↦ record { from = λ n le. rw missing (node-Sums.from n le) }
    | inr some_bytes ↦ record {
      from = λ n le. rw some_bytes ((parsed-Sums value (parse object_limits value)).from n le);
    }
  ]
