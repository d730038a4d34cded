-- ===== src/Providers/Sse/Fields.antt =====
-- How much data one line brings to the reader of core/providers/internal/transport/sse/reader.go.
use serpe.Base.{
  ℕ, ◌+◌, ◌≡◌, ◌≤◌, refl, Bool, true, false, [], ◌∷◌, ◌++◌, ◌==◌, nat_eq, if◌then◌else◌, Bytes,
  bytes_eq, codes, length, length-append, arith, Bool-cases, inl, inr,
}
use serpe.Providers.Sse.{
  Reading, take_line, trim_suffix, without_space, split_field, set_field, read_field, contains_zero,
  is_uint64, unless_comment,
}

pub length-take_line :
    (s : Bytes)
    → length (take_line s).0 + (if (take_line s).1 then 0 else 1) + length (take_line s).2
      ≡ length s
unfolding take_line
length-take_line [] = omega arith
length-take_line (c ∷ s) = ground (arith, length-take_line s)

pub length-trim_suffix : (s : Bytes) → length (trim_suffix s) ≤ length s
unfolding trim_suffix
length-trim_suffix [] = omega arith
length-trim_suffix (c ∷ []) = ground arith
length-trim_suffix (c ∷ d ∷ s) = omega (arith, length-trim_suffix (d ∷ s))

length-split_field : (c : ℕ) (s : Bytes) → length (split_field (c ∷ s)).1 + 1 ≤ length (c ∷ s)
unfolding split_field
length-split_field c [] = ground arith
length-split_field c (d ∷ s) = ground (arith, length-split_field d s, length-without_space (d ∷ s))
  where
    length-without_space : (t : Bytes) → length (without_space t) ≤ length t
    length-without_space [] = omega arith
    length-without_space (x ∷ t) = ground arith

-- A field brings no more data than its value and a line break, and none without a mark.
abbrev Grows : ℕ → Reading → Reading → Type 0
Grows most r r' =
    (length r'.event.payload ≤ length r.event.payload + most)
    × (r'.size ≡ r.size)
    × (r'.has_field ≡ false
        → (length r'.event.payload ≡ length r.event.payload) × (r.has_field ≡ false))

set_field-Grows :
    (field value : Bytes) (r : Reading) → Grows (length value + 1) r (set_field field value r)
unfolding set_field
set_field-Grows field value r = elim (Bool-cases (field == codes "event")) [
  | inl e ↦ rw e (omega arith, refl, λ h. absurd (cc (h)))
  | inr e ↦ elim (Bool-cases (field == codes "data")) [
    | inl d ↦
        rw (e, d)
          (
            omega (
              arith,
              length-append r.event.payload (value ++ 10 ∷ []),
              length-append value (10 ∷ []),
            ),
            refl,
            λ h. absurd (cc (h)),
          )
    | inr d ↦ elim (Bool-cases (field == codes "id")) [
      | inl i ↦ elim (Bool-cases (contains_zero value)) [
        | inl z ↦ rw (e, d, i, z) (omega arith, refl, λ h. absurd (cc (h)))
        | inr z ↦ rw (e, d, i, z) (omega arith, refl, λ h. absurd (cc (h)))
      ]
      | inr i ↦ elim (Bool-cases (field == codes "retry")) [
        | inl t ↦ elim (Bool-cases (is_uint64 value)) [
          | inl u ↦ rw (e, d, i, t, u) (omega arith, refl, λ h. absurd (cc (h)))
          | inr u ↦ rw (e, d, i, t, u) (omega arith, refl, λ h. absurd (cc (h)))
        ]
        | inr t ↦ rw (e, d, i, t) (omega arith, refl, λ h. (refl, h))
      ]
    ]
  ]
]

unless_comment-Grows :
    (comment : Bool) (parts : Bytes × Bytes) (most : ℕ) (r : Reading)
    → length parts.1 + 1 ≤ most
    → Grows most r (unless_comment comment parts r)
unless_comment-Grows true parts most r h = (omega arith, refl, λ k. (refl, k))
unless_comment-Grows false parts most r h =
    let (more, same, marked) = set_field-Grows parts.0 parts.1 r in
    (omega (arith, more, h), same, marked)

pub read_field-Grows : (line : Bytes) (r : Reading) → Grows (length line) r (read_field line r)
unfolding read_field
read_field-Grows [] r = (omega arith, refl, λ k. (refl, k))
read_field-Grows (c ∷ s) r =
    unless_comment-Grows (c == b':') (split_field (c ∷ s)) (length (c ∷ s)) r
      (length-split_field c s)
