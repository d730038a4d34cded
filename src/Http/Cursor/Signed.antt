-- ===== src/Http/Cursor/Signed.antt =====
-- The bytes of a cursor of internal/httpapi/cursor.go, with their signature.
use serpe.Base.{
  ℕ, zero, suc, ◌+◌, ◌*◌, ◌-◌, ◌/◌, ◌≡◌, ◌≤◌, refl, ap, ◌∙◌, true, false, Option, some, [], ◌∷◌,
  ◌++◌, ◌==◌, nat_eq, ltb, Bytes, bytes_eq, bytes_beq, length, take, drop, arith, length-append,
  take-++, drop-++, ==_iff,
}
use serpe.Http.Cursor.{
  ok, CursorCodec, body_of, signed, encode, open_token, decode, label, check_token,
}

pub same_bytes : (s : Bytes) → (s == s) ≡ true
same_bytes s = (==_iff s s).1 refl

not_empty : (s : Bytes) → 1 ≤ length s → (s == []) ≡ false
unfolding bytes_beq
not_empty [] h = absurd (omega (arith, h))
not_empty (x ∷ s) h = refl

pub ++-assoc : (xs ys zs : Bytes) → (xs ++ ys) ++ zs ≡ xs ++ (ys ++ zs)
++-assoc [] ys zs = refl
++-assoc (x ∷ xs) ys zs = ap (λ s. x ∷ s) (++-assoc xs ys zs)

-- What stands behind a part and one byte.
behind :
    (n : ℕ) (xs : Bytes) (k : ℕ) (ys : Bytes) → length xs ≡ n → drop (suc n) (xs ++ k ∷ ys) ≡ ys
behind zero [] k ys h = refl
behind zero (x ∷ xs) k ys h = absurd (omega (arith, h))
behind (suc n) [] k ys h = absurd (omega (arith, h))
behind (suc n) (x ∷ xs) k ys h = behind n xs k ys (omega (arith, h))

module _ (encode64 : Bytes → Bytes) (decode64 : Bytes → Option Bytes) (mac : Bytes → Bytes → Bytes)
    (decode64-encode64 : (s : Bytes) → decode64 (encode64 s) ≡ some s)
    (length-encode64 : (s : Bytes) → length (encode64 s) ≡ (length s * 8 + 5) / 6)
    (length-mac : (k s : Bytes) → length (mac k s) ≡ 32) (c : CursorCodec)
    (key_id_length : length c.key_id ≡ 16) (kind : ℕ) (payload : Bytes) where
  abbrev pub body : Bytes
  body = body_of encode64 decode64 mac c kind payload

  abbrev pub buffer : Bytes
  buffer = signed encode64 decode64 mac c body

  length-body : length body ≡ 18 + length payload
  length-body = omega (arith, length-append c.key_id (kind ∷ payload), key_id_length)

  length-buffer : length buffer ≡ 50 + length payload
  length-buffer = omega (arith, length-append body (mac c.key _), length-body, length-mac c.key _)

  body_len : length body ≡ length buffer - 32
  body_len = omega (arith, length-body, length-buffer)

  key_id_read : take 16 (drop 1 buffer) ≡ c.key_id
  key_id_read =
      ap (take 16) (++-assoc c.key_id (kind ∷ payload) (mac c.key _))
      ∙ take-++ 16 c.key_id (kind ∷ payload ++ mac c.key _) key_id_length

  body_read : take (length buffer - 32) buffer ≡ body
  body_read = take-++ (length buffer - 32) body (mac c.key _) body_len

  mac_read : drop (length buffer - 32) buffer ≡ mac c.key (label ++ body)
  mac_read = drop-++ (length buffer - 32) body (mac c.key _) body_len

  kind_read : take 1 (drop 17 body) ≡ kind ∷ []
  kind_read = ap (take 1) (drop-++ 16 c.key_id (kind ∷ payload) key_id_length)

  payload_read : drop 18 body ≡ payload
  payload_read = behind 16 c.key_id kind payload key_id_length

  check_token-signed :
      check_token encode64 decode64 mac c kind (1 ∷ []) c.key_id body (mac c.key (label ++ body))
      ≡ ok payload
  unfolding check_token
  check_token-signed =
      rw
        (
          same_bytes c.key_id,
          same_bytes (mac c.key (label ++ body)),
          kind_read,
          same_bytes (kind ∷ []),
          payload_read,
        )
        refl

  open_token-signed : open_token encode64 decode64 mac c kind buffer ≡ ok payload
  unfolding open_token
  open_token-signed = rw (key_id_read, body_read, mac_read) check_token-signed

  decode-encode64 :
      ltb 1024 (length (encode64 buffer)) ≡ false
      → decode encode64 decode64 mac c (encode64 buffer) kind ≡ ok payload
  unfolding decode
  decode-encode64 short =
      let size = length-encode64 buffer in
      let decoded : length (encode64 buffer) * 6 / 8 ≡ length buffer = omega (arith, size) in
      let most : ltb 1024 (length buffer) ≡ false = ground (arith, short, decoded) in
      let least : ltb (length buffer) 50 ≡ false = ground (arith, length-buffer) in
      rw
        (
          not_empty (encode64 buffer) (omega (arith, size, length-buffer)),
          short,
          decoded,
          most,
          least,
          decode64-encode64 buffer,
        )
        (ground (arith, open_token-signed))

  -- A payload that is not too long is encoded, and decoded again.
  pub encode-decoded :
      length payload ≤ 512
      → (encode encode64 decode64 mac c kind payload ≡ ok (encode64 buffer))
        × (decode encode64 decode64 mac c (encode64 buffer) kind ≡ ok payload)
  unfolding encode
  encode-decoded few =
      let short : ltb 1024 (length (encode64 buffer)) ≡ false =
        ground (arith, length-encode64 buffer, length-buffer, few) in
      (ground (arith, short), decode-encode64 short)
