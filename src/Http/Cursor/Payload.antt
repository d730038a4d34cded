-- ===== src/Http/Cursor/Payload.antt =====
-- The payloads of the cursors of internal/httpapi/cursor.go that are read again.
use serpe.Base.{
  ℕ, zero, suc, ◌+◌, ◌*◌, ◌/◌, ◌%◌, ◌^◌, ◌≡◌, ◌≤◌, ◌<◌, refl, sym, ap, ◌∙◌, true, [], ◌∷◌, ◌++◌,
  nat_eq, Bytes, bytes_eq, length, take, drop, arith, length-append, take-++, drop-++,
}
use native.Mathlib.Nat.{pow-suc}
use serpe.Sessions.{valid_id}
use serpe.Http.Cursor.Signed.{same_bytes, ++-assoc}
use serpe.Http.Cursor.{
  ok, put_uint, uint_from, uint, list_payload, detail_payload, read_list, read_detail,
}

take_all : (n : ℕ) (s : Bytes) → length s ≡ n → take n s ≡ s
take_all zero [] h = refl
take_all zero (x ∷ s) h = absurd (omega (arith, h))
take_all (suc n) [] h = refl
take_all (suc n) (x ∷ s) h = ap (λ t. x ∷ t) (take_all n s (omega (arith, h)))

length-put_uint : (width n : ℕ) → length (put_uint width n) ≡ width
unfolding put_uint
length-put_uint zero n = refl
length-put_uint (suc width) n = omega (
  arith,
  length-append (put_uint width (n / 256)) ((n % 256) ∷ []),
  length-put_uint width (n / 256),
)

uint_from-++ : (n : ℕ) (xs : Bytes) (b : ℕ) → uint_from n (xs ++ b ∷ []) ≡ uint_from n xs * 256 + b
unfolding uint_from
uint_from-++ n [] b = refl
uint_from-++ n (x ∷ xs) b = uint_from-++ (n * 256 + x) xs b

uint-put_uint : (width n : ℕ) → n < 256 ^ width → uint (put_uint width n) ≡ n
unfolding put_uint uint_from
uint-put_uint zero n lt = omega (arith, lt)
uint-put_uint (suc width) n lt = omega (
  arith,
  uint_from-++ 0 (put_uint width (n / 256)) (n % 256),
  uint-put_uint width (n / 256) (omega (arith, lt, pow-suc 256 width)),
)

pub valid_id-length : (id : Bytes) → valid_id id ≡ true → (1 ≤ length id) × (length id ≤ 128)
unfolding valid_id
valid_id-length [] h = absurd (cc (h))
valid_id-length (a ∷ s) h = (omega arith, ground (arith, h))

size_read :
    (id rest : Bytes)
    → length id ≤ 128
    → uint (take 2 (put_uint 2 (length id % 2 ^ 16) ++ rest)) ≡ length id
size_read id rest short =
    rw (take-++ 2 (put_uint 2 (length id % 2 ^ 16)) rest (length-put_uint 2 _))
      (omega (arith, short, uint-put_uint 2 (length id % 2 ^ 16) (omega arith)))

rest_read : (id rest : Bytes) → drop 2 (put_uint 2 (length id % 2 ^ 16) ++ rest) ≡ rest
rest_read id rest = drop-++ 2 (put_uint 2 (length id % 2 ^ 16)) rest (length-put_uint 2 _)

length-sized :
    (id rest : Bytes) → length (put_uint 2 (length id % 2 ^ 16) ++ rest) ≡ 2 + length rest
length-sized id rest = omega (
  arith,
  length-append (put_uint 2 (length id % 2 ^ 16)) rest,
  length-put_uint 2 (length id % 2 ^ 16),
)

pub read_list-list_payload : (id : Bytes) → valid_id id ≡ true → read_list (list_payload id) ≡ ok id
unfolding read_list list_payload
read_list-list_payload id valid =
    let (some_bytes, short) = valid_id-length id valid in
    rw (size_read id id short, rest_read id id, length-sized id id, valid)
      (ground (arith, some_bytes))

-- The parts of a cursor of a page of messages.
module _ (size id before snapshot : Bytes) (size_length : length size ≡ 2)
    (before_length : length before ≡ 8) (snapshot_length : length snapshot ≡ 8) where
  abbrev payload : Bytes
  payload = size ++ (id ++ (before ++ snapshot))

  id_read : take (length id) (drop 2 payload) ≡ id
  id_read =
      ap (take (length id)) (drop-++ 2 size (id ++ (before ++ snapshot)) size_length)
      ∙ take-++ (length id) id (before ++ snapshot) refl

  before_read : take 8 (drop (2 + length id) payload) ≡ before
  before_read =
      ap (λ s. take 8 (drop (2 + length id) s)) (sym (++-assoc size id (before ++ snapshot)))
      ∙ ap (take 8) (
          drop-++ (2 + length id) (size ++ id) (before ++ snapshot)
            (omega (arith, length-append size id, size_length)))
      ∙ take-++ 8 before snapshot before_length

  snapshot_read : take 8 (drop (2 + length id + 8) payload) ≡ snapshot
  snapshot_read =
      ap (λ s. take 8 (drop (2 + length id + 8) s))
        (ap (λ s. size ++ s) (sym (++-assoc id before snapshot))
          ∙ sym (++-assoc size (id ++ before) snapshot))
      ∙ ap (take 8) (
          drop-++ (2 + length id + 8) (size ++ (id ++ before)) snapshot (
            omega (
              arith,
              length-append size (id ++ before),
              length-append id before,
              size_length,
              before_length,
            )))
      ∙ take_all 8 snapshot snapshot_length

  length-payload : length payload ≡ 18 + length id
  length-payload = omega (
    arith,
    length-append size (id ++ (before ++ snapshot)),
    length-append id (before ++ snapshot),
    length-append before snapshot,
    size_length,
    before_length,
    snapshot_length,
  )

pub read_detail-detail_payload :
    (id : Bytes) (before snapshot current : ℕ)
    → valid_id id ≡ true
    → before ≤ snapshot
    → snapshot ≤ current
    → snapshot < 2 ^ 63
    → read_detail id current (detail_payload id before snapshot) ≡ ok (before, snapshot)
unfolding read_detail detail_payload
read_detail-detail_payload id before snapshot current valid le most small =
    let (some_bytes, short) = valid_id-length id valid in
    let size = put_uint 2 (length id % 2 ^ 16) in
    let b = put_uint 8 before in
    let s = put_uint 8 snapshot in
    let lb = length-put_uint 8 before in
    let ls = length-put_uint 8 snapshot in
    let l2 = length-put_uint 2 (length id % 2 ^ 16) in
    rw
      (
        size_read id (id ++ (b ++ s)) short,
        id_read size id b s l2 lb ls,
        before_read size id b s l2 lb ls,
        snapshot_read size id b s l2 lb ls,
        length-payload size id b s l2 lb ls,
        uint-put_uint 8 before (omega (arith, le, small)),
        uint-put_uint 8 snapshot (omega (arith, small)),
        valid,
        same_bytes id,
      )
      (ground (arith, some_bytes, le, most, small))

pub length-list_payload : (id : Bytes) → length (list_payload id) ≡ 2 + length id
unfolding list_payload
length-list_payload id = length-sized id id

pub length-detail_payload :
    (id : Bytes) (before snapshot : ℕ) → length (detail_payload id before snapshot) ≡ 18 + length id
unfolding detail_payload
length-detail_payload id before snapshot =
    length-payload (put_uint 2 (length id % 2 ^ 16)) id (put_uint 8 before) (put_uint 8 snapshot)
      (length-put_uint 2 (length id % 2 ^ 16)) (length-put_uint 8 before)
      (length-put_uint 8 snapshot)
