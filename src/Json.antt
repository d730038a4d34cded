-- ===== src/Json.antt =====
-- internal/jsonvalue: JSON values, the budgets of the parser, and `Lookup`. A Value of Go is a tagged
-- union; one with a kind that is not a constant of the package is not modelled, since the parser makes
-- none.
pub mod Text
pub mod Number
pub mod Parse
pub mod Write
pub mod Ensures
pub mod Reads
pub mod Lexeme
pub mod Keeps
pub mod Arrays
pub mod Objects
pub mod Within
pub mod Runes
pub mod RoundTrip
pub mod Sorted
use serpe.Base.{
  ℕ, zero, suc, ◌+◌, ◌≤◌, ◌≡◌, Bool, Option, none, some, ◌==◌, if◌then◌else◌, nat_eq, ℤ, pos,
  negsuc, Bytes, bytes_eq,
}

-- A member of an object is its key and its value.
mutual
  pub data Value : Type 0 where
    null : Value
    boolean : Bool → Value
    number : Bytes → Value
    string : Bytes → Value
    array : Values → Value
    object : Members → Value

  pub data Values : Type 0 where
    nil : Values
    cons : Value → Values → Values

  pub data Members : Type 0 where
    no_members : Members
    member : Bytes → Value → Members → Members

pub record Limits (N : Type 0) : Type 0 where
  pub max_depth : N
  pub max_nodes : N
  pub max_number_bytes : N
  pub max_exponent : N
  pub max_scale : N

abbrev default_unless_positive : ℤ → ℕ → ℕ
default_unless_positive (negsuc n) default = default
default_unless_positive (pos n) default = if n == 0 then default else n

-- `normalizeParseLimits`
unfoldable pub normalize_parse_limits : Limits ℤ → Limits ℕ
normalize_parse_limits l = record {
  max_depth = default_unless_positive l.max_depth 128;
  max_nodes = default_unless_positive l.max_nodes 262144;
  max_number_bytes = default_unless_positive l.max_number_bytes 128;
  max_exponent = default_unless_positive l.max_exponent 1000;
  max_scale = default_unless_positive l.max_scale 1024;
}

abbrev pub object_limits : Limits ℤ
object_limits = record {
  max_depth = pos 128;
  max_nodes = pos 262144;
  max_number_bytes = pos 128;
  max_exponent = pos 1000;
  max_scale = pos 1024;
}

abbrev pub canonical_limits : Limits ℤ
canonical_limits = record {
  max_depth = pos 128;
  max_nodes = pos 1048576;
  max_number_bytes = pos 128;
  max_exponent = pos 1000;
  max_scale = pos 1024;
}

pub data ParseError : Type 0 where
  empty_value trailing_value object_required unexpected_end invalid_value : ParseError
  node_budget depth_budget invalid_literal unterminated_array invalid_array : ParseError
  key_expected duplicate_key colon_expected unterminated_object invalid_object : ParseError
  string_expected unterminated_string unterminated_escape control_character : ParseError
  invalid_utf8 invalid_escape invalid_unicode unpaired_surrogate : ParseError
  invalid_number exponent_budget lexeme_budget scale_budget : ParseError
  -- the fuel of the model has run out
  exhausted : ParseError

-- What has been read, and the rest of the text.
pub data Outcome {ℓ} (A : Type ℓ) : Type ℓ where
  done : A → Bytes → Outcome A
  failed : ParseError → Outcome A

infixl 5 ◌>>=◌
abbrev pub ◌>>=◌ {ℓ κ} : {A : Type ℓ} {B : Type κ} → Outcome A → (A → Bytes → Outcome B) → Outcome B
done a s >>= f = f a s
failed e >>= f = failed e

abbrev pub map_outcome {ℓ κ} : {A : Type ℓ} {B : Type κ} → (A → B) → Outcome A → Outcome B
map_outcome f (done a s) = done (f a) s
map_outcome f (failed e) = failed e

-- `Lookup` in the members of an object.
unfoldable pub find_member : Bytes → Members → Option Value
find_member key no_members = none
find_member key (member k v ms) = if k == key then some v else find_member key ms

unfoldable pub lookup_key : Bytes → Value → Option Value
unfolding find_member
lookup_key key (object ms) = find_member key ms
lookup_key key null = none
lookup_key key (boolean b) = none
lookup_key key (number n) = none
lookup_key key (string s) = none
lookup_key key (array vs) = none
