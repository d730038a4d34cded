-- ===== src/Json/Write.antt =====
-- internal/jsonvalue/canon.go and jsonvalue.go: the canonical text of a value. `sort.Slice` of the
-- members is an insertion by key. It need not keep the order of members with the same key, as the
-- insertion does: the values that are written come from the parser, which refuses a key that stands
-- twice, and where the keys differ there is one sorted list. A value that is refused is refused in any
-- order of its members.
use serpe.Base.{
  ℕ, ◌/◌, ◌%◌, ◌+◌, ◌-◌, Bool, true, false, ◌||◌, Option, none, some, List, [], ◌∷◌, ◌++◌, ◌==◌,
  nat_eq, ltb, if◌then◌else◌, Bytes, codes, bytes_ltb, bytes_eq, bytes_beq,
}
use serpe.Json.{
  Value, null, boolean, number, string, array, object, Values, nil, cons, Members, no_members,
  member, Outcome, done, failed, canonical_limits, object_limits,
}
use serpe.Json.Parse.{parse, parse_json_object}

abbrev pub hex_digit : ℕ → ℕ
hex_digit n = if ltb n 10 then b'0' + n else b'a' + n - 10

-- What `writeJSONString` writes of one byte.
unfoldable pub escape_byte : ℕ → Bytes
escape_byte c =
    if c == b'"' || c == b'\\'
    then b'\\' ∷ c ∷ []
    else if c == 8
    then b'\\' ∷ b'b' ∷ []
    else if c == 12
    then b'\\' ∷ b'f' ∷ []
    else if c == 10
    then b'\\' ∷ b'n' ∷ []
    else if c == 13
    then b'\\' ∷ b'r' ∷ []
    else if c == 9
    then b'\\' ∷ b't' ∷ []
    else if ltb c 0x20
    then b'\\' ∷ b'u' ∷ b'0' ∷ b'0' ∷ hex_digit (c / 16) ∷ hex_digit (c % 16) ∷ []
    else c ∷ []

unfoldable pub escape_text : Bytes → Bytes
unfolding escape_byte
escape_text [] = []
escape_text (c ∷ s) = escape_byte c ++ escape_text s

unfoldable pub write_json_string : Bytes → Bytes
unfolding escape_text
write_json_string s = b'"' ∷ (escape_text s ++ b'"' ∷ [])

-- A member with the canonical text of its value.
abbrev pub Written : Type 0
Written = Bytes × Bytes

unfoldable pub insert_member : Written → List Written → List Written
unfolding bytes_ltb
insert_member w [] = w ∷ []
insert_member w (v ∷ ws) = if bytes_ltb v.0 w.0 then v ∷ insert_member w ws else w ∷ v ∷ ws

unfoldable pub sort_members : List Written → List Written
unfolding insert_member
sort_members [] = []
sort_members (w ∷ ws) = insert_member w (sort_members ws)

abbrev pub comma_before : Bool → Bytes
comma_before true = []
comma_before false = b',' ∷ []

-- The loop over the sorted members; the first has no comma before it.
unfoldable pub join_members : Bool → List Written → Bytes
unfolding write_json_string
join_members first [] = b'}' ∷ []
join_members first ((key, text) ∷ ws) =
    comma_before first ++ write_json_string key ++ b':' ∷ (text ++ join_members false ws)

abbrev pub bind {ℓ κ} : {A : Type ℓ} {B : Type κ} → Option A → (A → Option B) → Option B
bind none f = none
bind (some a) f = f a

unfoldable mutual
  unfolding write_json_string sort_members join_members

  pub write_canonical : Value → Option Bytes
  write_canonical null = some (codes "null")
  write_canonical (boolean b) = some (if b then codes "true" else codes "false")
  write_canonical (number lexeme) = if lexeme == [] then none else some lexeme
  write_canonical (string s) = some (write_json_string s)
  write_canonical (array vs) = bind (write_elements true vs) (λ text. some (b'[' ∷ text))
  write_canonical (object ms) =
      bind (write_members ms) (λ ws. some (b'{' ∷ join_members true (sort_members ws)))

  pub write_elements : Bool → Values → Option Bytes
  write_elements first nil = some (b']' ∷ [])
  write_elements first (cons v vs) =
      bind (write_canonical v)
        (λ text. bind (write_elements false vs) (λ more. some (comma_before first ++ text ++ more)))

  pub write_members : Members → Option (List Written)
  write_members no_members = some []
  write_members (member key v ms) =
      bind (write_canonical v) (λ text. bind (write_members ms) (λ ws. some ((key, text) ∷ ws)))

abbrev written_outcome : Outcome Value → Option Bytes
written_outcome (failed e) = none
written_outcome (done v s) = write_canonical v

-- `Canonical`, `CanonicalObject` and `Equal`; `none` is an error.
unfoldable pub canonical : Bytes → Option Bytes
unfolding parse write_canonical
canonical raw = written_outcome (parse canonical_limits raw)

unfoldable pub canonical_object : Bytes → Option Bytes
unfolding parse_json_object write_canonical
canonical_object raw = written_outcome (parse_json_object object_limits raw)

abbrev both_same : Option Bytes → Option Bytes → Bool
both_same (some a) (some b) = a == b
both_same _ _ = false

unfoldable pub equal : Bytes → Bytes → Bool
unfolding canonical bytes_beq
equal left right = left == right || both_same (canonical left) (canonical right)
