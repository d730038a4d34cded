-- ===== src/Examples/Cursor.antt =====
-- Cursors of pages, with a base64 that keeps its bytes apart and a MAC of zeros.
use serpe.Base.{
  ℕ, zero, suc, ◌+◌, ◌*◌, ◌-◌, ◌/◌, ◌≡◌, refl, ap, true, Option, some, [], ◌∷◌, ◌++◌, nat_eq, Bytes,
  bytes_beq, codes, length, arith, take, take-++, length-append,
}
use serpe.Sessions.{valid_id}
use serpe.Http.Cursor.{CursorCodec, ok, encode_list, decode_list, encode_detail, decode_detail}
use serpe.Http.Cursor.RoundTrip.{decode_list-encode_list, decode_detail-encode_detail}

abbrev zeros : ℕ → Bytes
zeros zero = []
zeros (suc n) = 0 ∷ zeros n

length-zeros : (n : ℕ) → length (zeros n) ≡ n
length-zeros zero = refl
length-zeros (suc n) = omega (arith, length-zeros n)

abbrev mac : Bytes → Bytes → Bytes
mac key text = zeros 32

-- The text with as many zeros behind it as base64 makes it longer.
abbrev encode64 : Bytes → Bytes
encode64 s = s ++ zeros ((length s * 8 + 5) / 6 - length s)

abbrev decode64 : Bytes → Option Bytes
decode64 t = some (take (length t * 6 / 8) t)

length-encode64 : (s : Bytes) → length (encode64 s) ≡ (length s * 8 + 5) / 6
length-encode64 s = omega (
  arith,
  length-append s (zeros ((length s * 8 + 5) / 6 - length s)),
  length-zeros ((length s * 8 + 5) / 6 - length s),
)

decode64-encode64 : (s : Bytes) → decode64 (encode64 s) ≡ some s
decode64-encode64 s = ap some (
    take-++ (length (encode64 s) * 6 / 8) s (zeros ((length s * 8 + 5) / 6 - length s))
      (omega (arith, length-encode64 s)))

abbrev codec : CursorCodec
codec = record { key = zeros 32; key_id = zeros 16 }

session_valid : valid_id (codes "s-1") ≡ true
unfolding valid_id bytes_beq
session_valid = refl

decode_list-encode_list_example :
    (token : Bytes) × (encode_list encode64 decode64 mac codec (codes "s-1") ≡ ok token)
    × (decode_list encode64 decode64 mac codec token ≡ ok (codes "s-1"))
decode_list-encode_list_example =
    decode_list-encode_list encode64 decode64 mac decode64-encode64 length-encode64
      (λ k s. length-zeros 32) codec refl (codes "s-1") session_valid

decode_detail-encode_detail_example :
    (token : Bytes) × (encode_detail encode64 decode64 mac codec (codes "s-1") 20 300 ≡ ok token)
    × (decode_detail encode64 decode64 mac codec token (codes "s-1") 301 ≡ ok (20, 300))
decode_detail-encode_detail_example =
    decode_detail-encode_detail encode64 decode64 mac decode64-encode64 length-encode64
      (λ k s. length-zeros 32) codec refl (codes "s-1") 20 300 301 session_valid (omega arith)
      (omega arith) (omega arith)
