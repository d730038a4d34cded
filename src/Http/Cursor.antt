-- ===== src/Http/Cursor.antt =====
-- internal/httpapi/cursor.go: the signed cursors of pages. `encode64` and `decode64` are what the code
-- uses of `base64.RawURLEncoding`, and `mac` is HMAC-SHA256 of a key and a text; an `int` has 64 bits.
pub mod Signed
pub mod Payload
pub mod RoundTrip
pub use serpe.Base.{ok, err, ◌>>=◌}
use serpe.Base.{
  Fallible, ℕ, zero, suc, ◌+◌, ◌*◌, ◌-◌, ◌/◌, ◌%◌, ◌^◌, Bool, true, false, not, ◌&&◌, ◌||◌, Option,
  none, some, List, [], ◌∷◌, ◌++◌, ◌==◌, nat_eq, ltb, leb, if◌then◌else◌, Bytes, bytes_eq,
  bytes_beq, codes, length, take, drop,
}
use serpe.Sessions.{valid_id}

pub data CursorError : Type 0 where
  invalid_cursor stale_cursor : CursorError

abbrev pub Result {ℓ} : Type ℓ → Type ℓ
Result A = Fallible CursorError A

pub record CursorCodec : Type 0 where
  pub key : Bytes
  pub key_id : Bytes

-- `newCursorCodec` from what the source of random bytes gives.
unfoldable pub new_cursor_codec : Bytes → Option CursorCodec
new_cursor_codec random =
    if ltb (length random) 48
    then none
    else some (record { key = take 32 random; key_id = take 16 (drop 32 random) })

-- `binary.BigEndian` on a number of bytes.
unfoldable pub put_uint : ℕ → ℕ → Bytes
put_uint zero n = []
put_uint (suc width) n = put_uint width (n / 256) ++ (n % 256) ∷ []

unfoldable pub uint_from : ℕ → Bytes → ℕ
uint_from n [] = n
uint_from n (b ∷ s) = uint_from (n * 256 + b) s

abbrev pub uint : Bytes → ℕ
uint = uint_from 0

abbrev pub list_kind : ℕ
list_kind = 1

abbrev pub detail_kind : ℕ
detail_kind = 2

abbrev pub label : Bytes
label = codes "serpe.http.cursor.v1"

unfoldable pub list_payload : Bytes → Bytes
unfolding put_uint
list_payload after_id = put_uint 2 (length after_id % 2 ^ 16) ++ after_id

unfoldable pub detail_payload : Bytes → ℕ → ℕ → Bytes
unfolding put_uint
detail_payload id before snapshot =
    put_uint 2 (length id % 2 ^ 16) ++ (id ++ (put_uint 8 before ++ put_uint 8 snapshot))

-- The end of `decodeList`.
unfoldable pub read_list : Bytes → Result Bytes
unfolding uint_from valid_id
read_list payload =
    let size : ℕ = uint (take 2 payload) in
    let id : Bytes = drop 2 payload in
    if ltb (length payload) 2 || size == 0 || not (size == length payload - 2) || not (valid_id id)
    then err invalid_cursor
    else ok id

-- The end of `decodeDetail`.
unfoldable pub read_detail : Bytes → ℕ → Bytes → Result (ℕ × ℕ)
unfolding uint_from valid_id
read_detail route_id current_length payload =
    let size : ℕ = uint (take 2 payload) in
    let id : Bytes = take size (drop 2 payload) in
    let before : ℕ = uint (take 8 (drop (2 + size) payload)) in
    let snapshot : ℕ = uint (take 8 (drop (2 + size + 8) payload)) in
    if ltb (length payload) 18
      || size == 0
      || not (2 + size + 16 == length payload)
      || not (valid_id id)
      || not (id == route_id)
      || leb (2 ^ 63) before
      || leb (2 ^ 63) snapshot
      || ltb snapshot before
      || ltb current_length snapshot
    then err invalid_cursor
    else ok (before, snapshot)

module _ (encode64 : Bytes → Bytes) (decode64 : Bytes → Option Bytes)
    (mac : Bytes → Bytes → Bytes) where
  abbrev pub body_of : CursorCodec → ℕ → Bytes → Bytes
  body_of c kind payload = 1 ∷ (c.key_id ++ kind ∷ payload)

  abbrev pub signed : CursorCodec → Bytes → Bytes
  signed c body = body ++ mac c.key (label ++ body)

  unfoldable pub encode : CursorCodec → ℕ → Bytes → Result Bytes
  encode c kind payload =
      let token : Bytes = encode64 (signed c (body_of c kind payload)) in
      if ltb 1024 (length token) then err invalid_cursor else ok token

  -- The tests of `decode` on the version, the key ID, the body and the signature of a token.
  unfoldable pub check_token : CursorCodec → ℕ → Bytes → Bytes → Bytes → Bytes → Result Bytes
  unfolding bytes_beq
  check_token c kind version key_id body got_mac =
      if not (version == 1 ∷ [])
      then err invalid_cursor
      else if not (key_id == c.key_id)
      then err stale_cursor
      else if not (got_mac == mac c.key (label ++ body))
      then err invalid_cursor
      else if not (take 1 (drop 17 body) == kind ∷ [])
      then err invalid_cursor
      else ok (drop 18 body)

  -- What `decode` makes of the bytes of a token.
  unfoldable pub open_token : CursorCodec → ℕ → Bytes → Result Bytes
  unfolding check_token
  open_token c kind buffer =
      let body_length : ℕ = length buffer - 32 in
      check_token c kind (take 1 buffer) (take 16 (drop 1 buffer)) (take body_length buffer)
        (drop body_length buffer)

  unfoldable pub decode : CursorCodec → Bytes → ℕ → Result Bytes
  unfolding open_token bytes_beq
  decode c token kind =
      let decoded_length : ℕ = length token * 6 / 8 in
      if token == [] || ltb 1024 (length token) || ltb decoded_length 50 || ltb 1024 decoded_length
      then err invalid_cursor
      else elim (decode64 token) [
        | none ↦ err invalid_cursor
        | some buffer ↦
            if not (length buffer == decoded_length)
            then err invalid_cursor
            else open_token c kind buffer
      ]

  unfoldable pub encode_list : CursorCodec → Bytes → Result Bytes
  unfolding valid_id encode list_payload
  encode_list c after_id =
      if not (valid_id after_id)
      then err invalid_cursor
      else encode c list_kind (list_payload after_id)

  unfoldable pub decode_list : CursorCodec → Bytes → Result Bytes
  unfolding decode read_list
  decode_list c token = decode c token list_kind >>= read_list

  unfoldable pub encode_detail : CursorCodec → Bytes → ℕ → ℕ → Result Bytes
  unfolding valid_id encode detail_payload
  encode_detail c session_id before snapshot =
      if not (valid_id session_id) || ltb snapshot before
      then err invalid_cursor
      else encode c detail_kind (detail_payload session_id before snapshot)

  unfoldable pub decode_detail : CursorCodec → Bytes → Bytes → ℕ → Result (ℕ × ℕ)
  unfolding decode read_detail
  decode_detail c token route_id current_length =
      decode c token detail_kind >>= read_detail route_id current_length
