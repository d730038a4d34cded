-- ===== src/Json/Arrays.antt =====
-- parseArray of internal/jsonvalue/parse.go keeps the budgets.
use serpe.Base.{ℕ, zero, suc, ◌≤◌, ◌<◌, [], ◌∷◌, nat_eq, length, Bytes, bytes_eq, arith}
use serpe.Json.{Value, Values, Limits, Outcome}
use serpe.Json.Parse.{
  Parser, Counted, Mark, comma, close, other, mark_of, skip_space, array_mark, after_element,
  elements,
}
use serpe.Json.Ensures.{Ensures, Ensures-bind, Ensures-map}
use serpe.Json.Keeps.{nodes_of, Keeps, skip_space-le, Reads, ReadsAll, ReadsBelow, IsRead-skip}

module _ (l : Limits ℕ) (k depth : ℕ) (p : Parser) (reads : ReadsBelow l k depth p) where
  array_mark-Reads :
      (m : Mark) (first : Counted Value) (next : ℕ → Bytes → Outcome (Counted Values)) (nodes : ℕ)
      (s t rest : Bytes)
      → Reads l depth nodes s first rest
      → suc (length t) ≤ length rest
      → Ensures (ReadsAll l depth first.1 t) (next first.1 t)
      → Ensures (ReadsAll l depth nodes s) (array_mark m first next t)
  unfolding array_mark nodes_of Keeps
  array_mark-Reads comma first next nodes s t rest r le h =
      Ensures-map (ReadsAll l depth first.1 t) (ReadsAll l depth nodes s) _ (next first.1 t) h
        λ more u m. record {
          shorter = omega (arith, m.shorter, r.shorter, le);
          counted = omega (arith, m.counted, r.counted);
          within = m.within;
          good = (r.good, m.good);
        }
  array_mark-Reads close first next nodes s t rest r le h = record {
    shorter = omega (arith, r.shorter, le);
    counted = omega (arith, r.counted);
    within = r.within;
    good = (r.good, tt);
  }
  array_mark-Reads other first next nodes s t rest r le h = λ e. cc (e)

  after_element-Reads :
      (first : Counted Value) (next : ℕ → Bytes → Outcome (Counted Values)) (nodes : ℕ)
      (s t rest : Bytes)
      → Reads l depth nodes s first rest
      → length t ≤ length rest
      → ((u : Bytes) → length u < length t → Ensures (ReadsAll l depth first.1 u) (next first.1 u))
      → Ensures (ReadsAll l depth nodes s) (after_element first next t)
  unfolding after_element
  after_element-Reads first next nodes s [] rest r le h = λ e. cc (e)
  after_element-Reads first next nodes s (c ∷ t) rest r le h =
      array_mark-Reads (mark_of b']' c) first next nodes s t rest r (omega (arith, le))
        (h t (omega arith))

  pub elements-Reads :
      (fuel nodes : ℕ) (s : Bytes)
      → length s < fuel
      → length s < k
      → Ensures (ReadsAll l depth nodes s) (elements fuel p nodes s)
  unfolding elements
  elements-Reads zero nodes s le lt = absurd (omega (arith, le))
  elements-Reads (suc fuel) nodes s le lt =
      Ensures-bind (Reads l depth nodes (skip_space s)) (ReadsAll l depth nodes s)
        (p nodes (skip_space s)) _ (reads nodes (skip_space s) (omega (arith, skip_space-le s, lt)))
        λ first rest r.
          let here = IsRead-skip l nodes s r in
          after_element-Reads first (elements fuel p) nodes s (skip_space rest) rest here
            (skip_space-le rest)
            λ u shorter.
              elements-Reads fuel first.1 u
                (omega (arith, shorter, skip_space-le rest, here.shorter, le))
                (omega (arith, shorter, skip_space-le rest, here.shorter, lt))
