-- ===== src/Json/Keeps.antt =====
-- The budgets that a value of internal/jsonvalue keeps, and what its parsers read.
use serpe.Base.{
  ℕ, suc, ◌+◌, ◌≤◌, ◌<◌, ◌≡◌, true, none, [], ◌∷◌, nat_eq, length, Bytes, bytes_eq, Assoc, has,
  arith,
}
use serpe.Json.{
  Value, null, boolean, number, string, array, object, Values, nil, cons, Members, no_members,
  member, Limits, find_member,
}
use serpe.Json.Parse.{Parser, Counted, skip_space}
use serpe.Json.Ensures.{Ensures}
use serpe.Json.Lexeme.{IsLexeme}

-- The nodes of a value: one for each value and one for each key in it.
unfoldable mutual
  pub nodes_of : Value → ℕ
  nodes_of null = 1
  nodes_of (boolean b) = 1
  nodes_of (number n) = 1
  nodes_of (string s) = 1
  nodes_of (array vs) = suc (nodes_of_all vs)
  nodes_of (object ms) = suc (nodes_of_members ms)

  pub nodes_of_all : Values → ℕ
  nodes_of_all nil = 0
  nodes_of_all (cons v vs) = nodes_of v + nodes_of_all vs

  pub nodes_of_members : Members → ℕ
  nodes_of_members no_members = 0
  nodes_of_members (member k v ms) = suc (nodes_of v + nodes_of_members ms)

-- A value inside `depth` arrays and objects: it nests no deeper than the limit, its lexemes keep to
-- theirs, and no object has a key twice.
unfoldable mutual
  unfolding find_member

  pub Keeps : Limits ℕ → ℕ → Value → Type 0
  Keeps l depth null = Unit
  Keeps l depth (boolean b) = Unit
  Keeps l depth (number lexeme) = IsLexeme l lexeme
  Keeps l depth (string s) = Unit
  Keeps l depth (array vs) = (suc depth ≤ l.max_depth) × KeepsAll l (suc depth) vs
  Keeps l depth (object ms) = (suc depth ≤ l.max_depth) × KeepsMembers l (suc depth) ms

  pub KeepsAll : Limits ℕ → ℕ → Values → Type 0
  KeepsAll l depth nil = Unit
  KeepsAll l depth (cons v vs) = Keeps l depth v × KeepsAll l depth vs

  pub KeepsMembers : Limits ℕ → ℕ → Members → Type 0
  KeepsMembers l depth no_members = Unit
  KeepsMembers l depth (member k v ms) =
      (find_member k ms ≡ none) × Keeps l depth v × KeepsMembers l depth ms

pub skip_space-le : (s : Bytes) → length (skip_space s) ≤ length s
unfolding skip_space
skip_space-le [] = omega arith
skip_space-le (c ∷ s) = ground (arith, skip_space-le s)

module _ (l : Limits ℕ) where
  -- What is read from the text `s` where `nodes` have been counted.
  pub record IsRead {A : Type 0} (size : A → ℕ) (Good : A → Type 0) (nodes : ℕ) (s : Bytes)
      (read : Counted A) (rest : Bytes) : Type 0 where
    pub shorter : length rest < length s
    pub counted : read.1 ≡ size read.0 + nodes
    pub within : read.1 ≤ l.max_nodes
    pub good : Good read.0

  abbrev pub Reads : ℕ → ℕ → Bytes → Counted Value → Bytes → Type 0
  Reads depth = IsRead nodes_of (Keeps l depth)

  abbrev pub ReadsAll : ℕ → ℕ → Bytes → Counted Values → Bytes → Type 0
  ReadsAll depth = IsRead nodes_of_all (KeepsAll l depth)

  -- A key that has been seen is not among the members.
  abbrev pub Avoids : Assoc Bytes (Unit {0}) → Members → Type 0
  Avoids seen ms = (k : Bytes) → has k seen ≡ true → find_member k ms ≡ none

  abbrev pub ReadsMembers :
      ℕ → Assoc Bytes (Unit {0}) → ℕ → Bytes → Counted Members → Bytes → Type 0
  ReadsMembers depth seen = IsRead nodes_of_members (λ ms. KeepsMembers l depth ms × Avoids seen ms)

  -- A parser of the values at a depth, on texts shorter than `k`.
  abbrev pub ReadsBelow : ℕ → ℕ → Parser → Type 0
  ReadsBelow k depth p =
      (nodes : ℕ) (s : Bytes) → length s < k → Ensures (Reads depth nodes s) (p nodes s)

  -- Spaces before a value do not matter.
  pub IsRead-skip :
      {A : Type 0} {size : A → ℕ} {Good : A → Type 0} (nodes : ℕ) (s : Bytes) {read : Counted A}
      {rest : Bytes}
      → IsRead size Good nodes (skip_space s) read rest
      → IsRead size Good nodes s read rest
  IsRead-skip nodes s r = record {
    shorter = omega (arith, r.shorter, skip_space-le s);
    counted = r.counted;
    within = r.within;
    good = r.good;
  }
