-- ===== src/Json/Parse.antt =====
-- internal/jsonvalue/parse.go: Parse, ParseObject, parseValue, parseArray and parseObject. The index of
-- the parser is the text that is left, and its count of nodes is passed from call to call; its depth is
-- an argument, since every parseArray and parseObject leaves what it has entered. Every element takes
-- a byte at least, so the length of the text bounds the elements of a list and the depth.
use serpe.Base.{
  ℕ, zero, suc, Bool, true, false, not, ◌&&◌, ◌||◌, [], ◌∷◌, ◌==◌, nat_eq, leb, length, drop,
  if◌then◌else◌, ℤ, Bytes, bytes_eq, codes, bytes_beq, Assoc, lookup, has, put,
}
use serpe.Json.{
  Value, null, boolean, number, string, array, object, Values, nil, cons, Members, no_members,
  member, Limits, normalize_parse_limits, object_limits, Outcome, done, failed, ◌>>=◌, map_outcome,
  empty_value, trailing_value, object_required, unexpected_end, invalid_value, node_budget,
  depth_budget, invalid_literal, unterminated_array, invalid_array, key_expected, duplicate_key,
  colon_expected, unterminated_object, invalid_object, exhausted,
}
use serpe.Json.Text.{parse_string, is_digit}
use serpe.Json.Number.{parse_number}

abbrev pub is_space : ℕ → Bool
is_space c = c == b' ' || c == 9 || c == 13 || c == 10

unfoldable pub skip_space : Bytes → Bytes
skip_space [] = []
skip_space (c ∷ s) = let rest = skip_space s in if is_space c then rest else c ∷ s

-- A text begins with another.
unfoldable pub has_prefix : Bytes → Bytes → Bool
has_prefix [] s = true
has_prefix (c ∷ p) [] = false
has_prefix (c ∷ p) (d ∷ s) = c == d && has_prefix p s

-- A value with the nodes counted so far.
abbrev pub Counted : Type 0 → Type 0
Counted A = A × ℕ

unfoldable pub parse_literal : Bytes → Value → ℕ → Bytes → Outcome (Counted Value)
unfolding has_prefix
parse_literal literal v nodes s =
    if has_prefix literal s
    then done (v, nodes) (drop (length literal) s)
    else failed invalid_literal

pub data Head : Type 0 where
  null_head true_head false_head string_head number_head array_head object_head no_head : Head

abbrev pub head_of : ℕ → Head
head_of c =
    if c == b'n'
    then null_head
    else if c == b't'
    then true_head
    else if c == b'f'
    then false_head
    else if c == b'"'
    then string_head
    else if c == b'-' || is_digit c
    then number_head
    else if c == b'['
    then array_head
    else if c == b'{'
    then object_head
    else no_head

-- What may stand behind an element: a comma, the end of the list, or neither.
pub data Mark : Type 0 where
  comma close other : Mark

abbrev pub mark_of : ℕ → ℕ → Mark
mark_of end c = if c == b',' then comma else if c == end then close else other

-- The parser of a value at some depth, from the nodes counted so far.
abbrev pub Parser : Type 0
Parser = ℕ → Bytes → Outcome (Counted Value)

-- Behind an element; `next` reads the further ones.
unfoldable pub array_mark :
    Mark → Counted Value → (ℕ → Bytes → Outcome (Counted Values)) → Bytes → Outcome (Counted Values)
array_mark comma first next s = map_outcome (λ more. (cons first.0 more.0, more.1)) (next first.1 s)
array_mark close first next s = done (cons first.0 nil, first.1) s
array_mark other first next s = failed invalid_array

unfoldable pub after_element :
    Counted Value → (ℕ → Bytes → Outcome (Counted Values)) → Bytes → Outcome (Counted Values)
unfolding array_mark
after_element first next [] = failed unterminated_array
after_element first next (c ∷ s) = array_mark (mark_of b']' c) first next s

-- The loop of `parseArray`.
unfoldable pub elements : ℕ → Parser → ℕ → Bytes → Outcome (Counted Values)
unfolding skip_space after_element
elements zero p nodes s = failed exhausted
elements (suc fuel) p nodes s =
    p nodes (skip_space s) >>= λ first rest. after_element first (elements fuel p) (skip_space rest)

unfoldable pub after_key : Bytes → ℕ → Bytes → Outcome (Counted Bytes)
after_key key nodes [] = failed colon_expected
after_key key nodes (c ∷ s) = if c == b':' then done (key, nodes) s else failed colon_expected

-- A key with the colon behind it.
unfoldable pub key_part : Limits ℕ → Assoc Bytes (Unit {0}) → ℕ → Bytes → Outcome (Counted Bytes)
unfolding skip_space parse_string after_key lookup bytes_beq
key_part l seen nodes [] = failed key_expected
key_part l seen nodes (c ∷ s) =
    if not (c == b'"')
    then failed key_expected
    else if leb l.max_nodes nodes
    then failed node_budget
    else parse_string (c ∷ s) >>= λ key rest.
        (if has key seen then failed duplicate_key else after_key key (suc nodes) (skip_space rest))

-- Behind a member; `next` reads the further ones.
unfoldable pub object_mark :
    Mark
    → Bytes
    → Counted Value
    → (ℕ → Bytes → Outcome (Counted Members))
    → Bytes
    → Outcome (Counted Members)
object_mark comma key v next s = map_outcome (λ more. (member key v.0 more.0, more.1)) (next v.1 s)
object_mark close key v next s = done (member key v.0 no_members, v.1) s
object_mark other key v next s = failed invalid_object

unfoldable pub after_member :
    Bytes
    → Counted Value
    → (ℕ → Bytes → Outcome (Counted Members))
    → Bytes
    → Outcome (Counted Members)
unfolding object_mark
after_member key v next [] = failed unterminated_object
after_member key v next (c ∷ s) = object_mark (mark_of b'}' c) key v next s

-- The loop of `parseObject`, with the keys that it has seen.
unfoldable pub members :
    ℕ → Limits ℕ → Parser → Assoc Bytes (Unit {0}) → ℕ → Bytes → Outcome (Counted Members)
unfolding skip_space key_part after_member put
members zero l p seen nodes s = failed exhausted
members (suc fuel) l p seen nodes s = key_part l seen nodes (skip_space s) >>= λ key rest.
    p key.1 (skip_space rest) >>= λ v rest.
    after_member key.0 v (members fuel l p (put key.0 tt seen)) (skip_space rest)

-- Behind the opening bracket.
unfoldable pub parse_array : ℕ → Parser → ℕ → Bytes → Outcome (Counted Value)
unfolding elements
parse_array fuel p nodes [] =
    map_outcome (λ read. (array read.0, read.1)) (elements fuel p nodes [])
parse_array fuel p nodes (c ∷ s) =
    if c == b']'
    then done (array nil, nodes) s
    else map_outcome (λ read. (array read.0, read.1)) (elements fuel p nodes (c ∷ s))

unfoldable pub parse_object : ℕ → Limits ℕ → Parser → ℕ → Bytes → Outcome (Counted Value)
unfolding members
parse_object fuel l p nodes [] =
    map_outcome (λ read. (object read.0, read.1)) (members fuel l p [] nodes [])
parse_object fuel l p nodes (c ∷ s) =
    if c == b'}'
    then done (object no_members, nodes) s
    else map_outcome (λ read. (object read.0, read.1)) (members fuel l p [] nodes (c ∷ s))

-- The switch of `parseValue` on the first byte; `inner` parses the values inside an array or object,
-- whose depth `enter` has tested.
unfoldable pub parse_head :
    Head → ℕ → Limits ℕ → ℕ → Parser → ℕ → ℕ → Bytes → Outcome (Counted Value)
unfolding parse_literal parse_string parse_number parse_array parse_object skip_space
parse_head null_head fuel l depth inner nodes c s = parse_literal (codes "null") null nodes (c ∷ s)
parse_head true_head fuel l depth inner nodes c s =
    parse_literal (codes "true") (boolean true) nodes (c ∷ s)
parse_head false_head fuel l depth inner nodes c s =
    parse_literal (codes "false") (boolean false) nodes (c ∷ s)
parse_head string_head fuel l depth inner nodes c s =
    map_outcome (λ text. (string text, nodes)) (parse_string (c ∷ s))
parse_head number_head fuel l depth inner nodes c s =
    map_outcome (λ lexeme. (number lexeme, nodes)) (parse_number l (c ∷ s))
parse_head array_head fuel l depth inner nodes c s =
    if leb l.max_depth depth
    then failed depth_budget
    else parse_array fuel inner nodes (skip_space s)
parse_head object_head fuel l depth inner nodes c s =
    if leb l.max_depth depth
    then failed depth_budget
    else parse_object fuel l inner nodes (skip_space s)
parse_head no_head fuel l depth inner nodes c s = failed invalid_value

unfoldable pub parse_value : ℕ → Limits ℕ → ℕ → Parser
unfolding parse_head
parse_value zero l depth nodes s = failed exhausted
parse_value (suc fuel) l depth nodes [] =
    if leb l.max_nodes nodes then failed node_budget else failed unexpected_end
parse_value (suc fuel) l depth nodes (c ∷ s) =
    if leb l.max_nodes nodes
    then failed node_budget
    else parse_head (head_of c) fuel l depth (parse_value fuel l (suc depth)) (suc nodes) c s

abbrev pub nothing_left : Value → Bytes → Outcome Value
nothing_left v [] = done v []
nothing_left v (c ∷ s) = failed trailing_value

unfoldable pub parse_text : Limits ℕ → Bytes → Outcome Value
unfolding parse_value skip_space
parse_text l [] = failed empty_value
parse_text l (c ∷ s) = parse_value (suc (length (c ∷ s))) l 0 0 (c ∷ s) >>= λ v rest.
    nothing_left v.0 (skip_space rest)

-- `Parse`
unfoldable pub parse : Limits ℤ → Bytes → Outcome Value
unfolding parse_text normalize_parse_limits skip_space
parse limits raw = parse_text (normalize_parse_limits limits) (skip_space raw)

abbrev is_object_value : Value → Bool
is_object_value (object ms) = true
is_object_value _ = false

-- `ParseObject`
unfoldable pub parse_json_object : Limits ℤ → Bytes → Outcome Value
unfolding parse
parse_json_object limits raw = parse limits raw >>= λ v rest.
    (if is_object_value v then done v rest else failed object_required)

-- `IsObject`
unfoldable pub is_object : Bytes → Bool
unfolding parse_json_object
is_object raw = elim (parse_json_object object_limits raw) [ done v s ↦ true | failed e ↦ false ]
