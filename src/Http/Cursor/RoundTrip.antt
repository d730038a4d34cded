-- ===== src/Http/Cursor/RoundTrip.antt =====
-- Cursors of internal/httpapi/cursor.go that are read again.
use serpe.Base.{
  ℕ, ◌+◌, ◌*◌, ◌/◌, ◌^◌, ◌≡◌, ◌≤◌, ◌<◌, true, false, Option, some, nat_eq, ltb, Bytes, bytes_eq,
  length, arith,
}
use serpe.Sessions.{valid_id}
use serpe.Http.Cursor.Signed.{encode-decoded}
use serpe.Http.Cursor.{
  ok, CursorCodec, list_kind, detail_kind, list_payload, detail_payload, body_of, signed,
  encode_list, decode_list, encode_detail, decode_detail,
}
use serpe.Http.Cursor.Payload.{
  valid_id-length, read_list-list_payload, read_detail-detail_payload, length-list_payload,
  length-detail_payload,
}

module _ (encode64 : Bytes → Bytes) (decode64 : Bytes → Option Bytes) (mac : Bytes → Bytes → Bytes)
    (decode64-encode64 : (s : Bytes) → decode64 (encode64 s) ≡ some s)
    (length-encode64 : (s : Bytes) → length (encode64 s) ≡ (length s * 8 + 5) / 6)
    (length-mac : (k s : Bytes) → length (mac k s) ≡ 32) (c : CursorCodec)
    (key_id_length : length c.key_id ≡ 16) where
  -- If base64 decodes what it encodes with four bytes for three, and a MAC has 32 bytes, then with a key
  -- ID of 16 bytes the cursor behind every valid ID is encoded, and the same codec decodes it to the ID.
  pub decode_list-encode_list :
      (id : Bytes)
      → valid_id id ≡ true
      → (token : Bytes) × (encode_list encode64 decode64 mac c id ≡ ok token)
        × (decode_list encode64 decode64 mac c token ≡ ok id)
  unfolding encode_list decode_list
  decode_list-encode_list id valid =
      let short : length (list_payload id) ≤ 512 =
        omega (arith, length-list_payload id, (valid_id-length id valid).1) in
      let (encoded, decoded) =
        encode-decoded encode64 decode64 mac decode64-encode64 length-encode64 length-mac c
          key_id_length list_kind (list_payload id) short in
      (
        encode64 (
            signed encode64 decode64 mac c
              (body_of encode64 decode64 mac c list_kind (list_payload id))),
        rw valid encoded,
        rw decoded (read_list-list_payload id valid),
      )

  -- If base64 decodes what it encodes with four bytes for three, and a MAC has 32 bytes, then with a key
  -- ID of 16 bytes the cursor of a page of messages in front of `before`, in a session with a valid ID
  -- and `snapshot` messages, is encoded where `before` is at most `snapshot` and `snapshot` an `int`; and
  -- the same codec decodes it for this session to the two numbers where the session has at least
  -- `snapshot` messages.
  pub decode_detail-encode_detail :
      (id : Bytes) (before snapshot current : ℕ)
      → valid_id id ≡ true
      → before ≤ snapshot
      → snapshot ≤ current
      → snapshot < 2 ^ 63
      → (token : Bytes) × (encode_detail encode64 decode64 mac c id before snapshot ≡ ok token)
        × (decode_detail encode64 decode64 mac c token id current ≡ ok (before, snapshot))
  unfolding encode_detail decode_detail
  decode_detail-encode_detail id before snapshot current valid le most small =
      let short : length (detail_payload id before snapshot) ≤ 512 =
        omega (arith, length-detail_payload id before snapshot, (valid_id-length id valid).1) in
      let (encoded, decoded) =
        encode-decoded encode64 decode64 mac decode64-encode64 length-encode64 length-mac c
          key_id_length detail_kind (detail_payload id before snapshot) short in
      let ordered : ltb snapshot before ≡ false = ground (arith, le) in
      (
        encode64 (
            signed encode64 decode64 mac c
              (body_of encode64 decode64 mac c detail_kind (detail_payload id before snapshot))),
        rw (valid, ordered) encoded,
        rw decoded (read_detail-detail_payload id before snapshot current valid le most small),
      )
