-- ===== src/Loops/Policy/Normal.antt =====
-- The policies for tool results that runtime/loops/config.go accepts.
use serpe.Base.{
  contains, IsIn, bind_inv, ok_inj, guard_inv, ℕ, ◌*◌, ◌^◌, ◌≤◌, ◌≡◌, refl, sym, ap, subst, Bool,
  true, false, not, ◌||◌, List, [], ◌∷◌, ◌==◌, nat_eq, ltb, if◌then◌else◌, ℤ, pos, negsuc, Bytes,
  bytes_eq, length, arith, Bool-cases, inl, inr, ◌⊎◌, All, ==_iff,
}
use serpe.Loops.Policy.{
  ToolResultPolicy, Result, ok, err, PolicyError, mime_count, mime_length, mime_unsupported,
  mime_duplicate, detail_invalid, detail_duplicate, has_limits, few_details,
  zero_tool_result_policy, raw_bytes, image_count, dimensions, zero_policy, allowed_mime,
  known_details, check_mime_types, check_image_details, between, normalize_tool_result_policy,
}

-- No name stands in the list twice.
abbrev pub IsDistinct : List Bytes → Type 0
IsDistinct [] = Unit
IsDistinct (x ∷ xs) = (contains x xs ≡ false) × IsDistinct xs

abbrev pub IsAmong : List Bytes → Bytes → Type 0
IsAmong names x = contains x names ≡ true

pub record IsNormalPolicy (p : ToolResultPolicy ℕ) : Type 0 where
  pub mime_count : 1 ≤ length p.mime_types
  pub mimes_allowed : All (IsAmong allowed_mime) p.mime_types
  pub mimes_distinct : IsDistinct p.mime_types
  pub details_known : All (IsAmong known_details) p.image_details
  pub details_distinct : IsDistinct p.image_details
  pub bytes : IsIn 1 (7 * 2 ^ 20) p.max_raw_image_bytes
  pub images : IsIn 1 64 p.max_images
  pub width : p.max_width ≤ 8192
  pub height : p.max_height ≤ 8192
  pub pixels : p.max_pixels ≤ 40000000

-- What a loop over names ensures with the names that it has seen.
abbrev Checked : List Bytes → List Bytes → List Bytes → Type 0
Checked names seen xs =
    All (IsAmong names) xs
    × IsDistinct xs
    × ((k : Bytes) → contains k seen ≡ true → contains k xs ≡ false)

Checked-next :
    (names seen xs : List Bytes) (x : Bytes)
    → contains x names ≡ true
    → contains x seen ≡ false
    → Checked names (x ∷ seen) xs
    → Checked names seen (x ∷ xs)
Checked-next names seen xs x among new (all, distinct, apart) = (
  (among, all),
  (apart x (ground (arith, (==_iff x x).1 refl)), distinct),
  λ k known. elim (Bool-cases (x == k)) [
    | inl same ↦
        absurd (ground (arith, new, known, ap (λ y. contains y seen) ((==_iff x k).0 same)))
    | inr other ↦ ground (arith, other, apart k (ground (arith, known)))
  ],
)

mime_passed :
    (a b c : Bool) (r : Result (Unit {0}))
    → (if a
        then err mime_length
        else if not b
        then err mime_unsupported
        else if c
        then err mime_duplicate
        else r)
      ≡ ok tt
    → (b ≡ true) × (c ≡ false) × (r ≡ ok tt)
mime_passed true b c r h = absurd (cc (h))
mime_passed false false c r h = absurd (cc (h))
mime_passed false true true r h = absurd (cc (h))
mime_passed false true false r h = (refl, refl, h)

detail_passed :
    (b c : Bool) (r : Result (Unit {0}))
    → (if not b then err detail_invalid else if c then err detail_duplicate else r) ≡ ok tt
    → (b ≡ true) × (c ≡ false) × (r ≡ ok tt)
detail_passed false c r h = absurd (cc (h))
detail_passed true true r h = absurd (cc (h))
detail_passed true false r h = (refl, refl, h)

check_mime_types-Checked :
    (seen xs : List Bytes) → check_mime_types seen xs ≡ ok tt → Checked allowed_mime seen xs
unfolding check_mime_types
check_mime_types-Checked seen [] h = (tt, tt, λ k known. refl)
check_mime_types-Checked seen (x ∷ xs) h =
    let (among, new, rest) =
      mime_passed (length x == 0 || ltb 127 (length x)) (contains x allowed_mime) (contains x seen)
        (check_mime_types (x ∷ seen) xs) h in
    Checked-next allowed_mime seen xs x among new (check_mime_types-Checked (x ∷ seen) xs rest)

check_image_details-Checked :
    (seen xs : List Bytes) → check_image_details seen xs ≡ ok tt → Checked known_details seen xs
unfolding check_image_details
check_image_details-Checked seen [] h = (tt, tt, λ k known. refl)
check_image_details-Checked seen (x ∷ xs) h =
    let (among, new, rest) =
      detail_passed (contains x known_details) (contains x seen) (check_image_details (x ∷ seen) xs)
        h in
    Checked-next known_details seen xs x among new (check_image_details-Checked (x ∷ seen) xs rest)

between-IsIn :
    (e : PolicyError) (low high n : ℕ) (z : ℤ) → between e low high z ≡ ok n → IsIn low high n
between-IsIn e low high n (negsuc k) h = absurd (cc (h))
between-IsIn e low high n (pos k) h = ground arith

only_zero :
    (zero : Bool) (q : ToolResultPolicy ℕ)
    → (if zero then ok zero_policy else err has_limits) ≡ ok q
    → q ≡ zero_policy
only_zero true q h = sym (ok_inj h)
only_zero false q h = absurd (cc (h))

module _ {A : Type 0} where
  then_inv : (a : Bool) (r s : Result A) {q : A} → a ≡ true → (if a then r else s) ≡ ok q → r ≡ ok q
  then_inv true r s e h = h
  then_inv false r s e h = absurd (cc (e))

  else_inv :
      (a : Bool) (r s : Result A) {q : A} → a ≡ false → (if a then r else s) ≡ ok q → s ≡ ok q
  else_inv true r s e h = absurd (cc (e))
  else_inv false r s e h = h

-- A policy that is accepted is the empty one where images are not inlined, and otherwise it names one
-- supported MIME type at least, each once, known image details, each once, and has its numbers within
-- their bounds.
pub normalize_tool_result_policy-IsNormalPolicy :
    (p : ToolResultPolicy ℤ) (q : ToolResultPolicy ℕ)
    → normalize_tool_result_policy p ≡ ok q
    → ((p.inline_images ≡ false) × (q ≡ zero_policy))
      ⊎ ((p.inline_images ≡ true) × IsNormalPolicy q)
unfolding normalize_tool_result_policy
normalize_tool_result_policy-IsNormalPolicy p q h = elim (Bool-cases p.inline_images) [
  | inr off ↦ inl (
    off,
    only_zero (zero_tool_result_policy p) q
        (then_inv (not p.inline_images) _ _ (ground (arith, off)) h),
  )
  | inl on ↦
      let h0 = else_inv (not p.inline_images) _ _ (ground (arith, on)) h in
      let (counted, h1) =
        guard_inv (ltb (length p.mime_types) 1 || ltb 16 (length p.mime_types)) mime_count _ h0 in
      let (u1, q1, h2) = bind_inv (check_mime_types [] p.mime_types) _ h1 in
      let (u2, q2, h3) = bind_inv (few_details p.image_details) _ h2 in
      let (u3, q3, h4) = bind_inv (check_image_details [] p.image_details) _ h3 in
      let (bytes, q4, h5) =
        bind_inv (between raw_bytes 1 (7 * 2 ^ 20) p.max_raw_image_bytes) _ h4 in
      let (images, q5, h6) = bind_inv (between image_count 1 64 p.max_images) _ h5 in
      let (width, q6, h7) = bind_inv (between dimensions 0 8192 p.max_width) _ h6 in
      let (height, q7, h8) = bind_inv (between dimensions 0 8192 p.max_height) _ h7 in
      let (pixels, q8, h9) = bind_inv (between dimensions 0 40000000 p.max_pixels) _ h8 in
      let (mimes, mimes_distinct, u4) = check_mime_types-Checked [] p.mime_types q1 in
      let (details, details_distinct, u5) = check_image_details-Checked [] p.image_details q3 in
      inr (
        on,
        subst IsNormalPolicy (ok_inj h9) (record {
          mime_count = some_of (length p.mime_types) (ltb 16 (length p.mime_types)) counted;
          mimes_allowed = mimes;
          mimes_distinct = mimes_distinct;
          details_known = details;
          details_distinct = details_distinct;
          bytes = between-IsIn raw_bytes 1 (7 * 2 ^ 20) bytes p.max_raw_image_bytes q4;
          images = between-IsIn image_count 1 64 images p.max_images q5;
          width = (between-IsIn dimensions 0 8192 width p.max_width q6).1;
          height = (between-IsIn dimensions 0 8192 height p.max_height q7).1;
          pixels = (between-IsIn dimensions 0 40000000 pixels p.max_pixels q8).1;
        }),
      )
]
  where
    some_of : (n : ℕ) (b : Bool) → (ltb n 1 || b) ≡ false → 1 ≤ n
    some_of n b h = ground (arith, h)
