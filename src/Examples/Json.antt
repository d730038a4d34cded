-- ===== src/Examples/Json.antt =====
-- JSON texts that are read and written.
use serpe.Base.{
  ◌≡◌, ◌++◌, refl, ap, arith, length, true, false, some, ◌∷◌, [], codes, Bytes, bytes_beq,
  valid_string,
}
use serpe.Json.{
  array, cons, nil, find_member, Value, done, failed, object_limits, duplicate_key,
  unpaired_surrogate, null, number, string, object, Members, member, no_members,
}
use serpe.Json.Parse.{parse, is_object}
use serpe.Json.Text.{parse_string}
use serpe.Json.Write.{canonical, write_json_string, write_canonical}
use serpe.Json.Ensures.{Ensures}
use serpe.Json.Keeps.{Keeps}
use serpe.Json.RoundTrip.{parse_string-write_json_string}
use serpe.Json.Sorted.{
  Rearranged, swap, arrays, objects, alike_cons, alike_nil, write_canonical-Alike,
}

sorts_keys :
    canonical (codes " { \"b\" : 1 , \"a\": {\"y\":[2,-3.5e+1],\"x\":true}}")
    ≡ some (codes "{\"a\":{\"x\":true,\"y\":[2,-3.5e+1]},\"b\":1}")
unfolding canonical bytes_beq
sorts_keys = refl

repeats : parse object_limits (codes "{\"p\":1,\"\\u0070\":2}") ≡ failed duplicate_key
unfolding parse bytes_beq
repeats = refl

pairs :
    parse object_limits (codes "\"\\uD83D\\uDE00\"")
    ≡ done (string (0xf0 ∷ 0x9f ∷ 0x98 ∷ 0x80 ∷ [])) []
unfolding parse bytes_beq
pairs = refl

half_pair : parse object_limits (codes "\"\\uD800\"") ≡ failed unpaired_surrogate
unfolding parse bytes_beq
half_pair = refl

no_object : is_object (codes "{} []") ≡ false
unfolding is_object bytes_beq
no_object = refl

-- A quote, a line break, a control character and an accented letter.
abbrev phrase : Bytes
phrase = b'"' ∷ 10 ∷ 1 ∷ 0xc3 ∷ 0xa9 ∷ []

phrase_valid : valid_string phrase ≡ true
unfolding valid_string
phrase_valid = refl

parse_string-write_json_string_example :
    parse_string (write_json_string phrase ++ codes ",1]") ≡ done phrase (codes ",1]")
parse_string-write_json_string_example =
    parse_string-write_json_string phrase (codes ",1]") phrase_valid

abbrev one_first : Members
one_first = member (codes "a") (number (codes "1")) (member (codes "bb") null no_members)

abbrev one_last : Members
one_last = member (codes "bb") null (member (codes "a") (number (codes "1")) no_members)

swapped : Rearranged one_first one_last
swapped =
    swap (codes "a") (codes "bb") (number (codes "1")) null no_members
      (λ h. absurd (omega (arith, ap length h)))

-- An object in an array, with its members in two orders.
abbrev listed : Members → Value
listed ms = array (cons (object ms) nil)

write_canonical-Alike_example :
    write_canonical (listed one_first) ≡ write_canonical (listed one_last)
unfolding find_member bytes_beq
write_canonical-Alike_example =
    write_canonical-Alike (listed one_first) (listed one_last)
      (arrays (alike_cons (objects (refl, (refl, tt)) swapped) alike_nil))
