-- ===== src/Loops/Policy.antt =====
-- normalizeToolResultPolicy and zeroToolResultPolicy of runtime/loops/config.go. The numbers of a policy
-- may be negative, so the record takes their type; `[]` stands for a slice that is nil or empty.
pub mod Normal
pub use serpe.Base.{ok, err, ◌>>=◌}
use serpe.Base.{
  contains, Fallible, ℕ, ◌*◌, ◌^◌, Bool, true, false, not, ◌&&◌, ◌||◌, Option, none, some, List, [],
  ◌∷◌, ◌==◌, nat_eq, ltb, if◌then◌else◌, ℤ, pos, negsuc, Bytes, bytes_eq, bytes_beq, codes, length,
}

pub record ToolResultPolicy (N : Type 0) : Type 0 where
  pub inline_images : Bool
  pub mime_types : List Bytes
  pub image_details : List Bytes
  pub max_raw_image_bytes : N
  pub max_images : N
  pub max_width : N
  pub max_height : N
  pub max_pixels : N

pub data PolicyError : Type 0 where
  has_limits mime_count mime_length mime_unsupported mime_duplicate : PolicyError
  too_many_details detail_invalid detail_duplicate raw_bytes image_count dimensions : PolicyError

abbrev pub Result {ℓ} : Type ℓ → Type ℓ
Result A = Fallible PolicyError A

abbrev pub zero_policy : ToolResultPolicy ℕ
zero_policy = record {
  inline_images = false;
  mime_types = [];
  image_details = [];
  max_raw_image_bytes = 0;
  max_images = 0;
  max_width = 0;
  max_height = 0;
  max_pixels = 0;
}

abbrev pub is_zero : ℤ → Bool
is_zero (pos n) = n == 0
is_zero (negsuc n) = false

unfoldable pub zero_tool_result_policy : ToolResultPolicy ℤ → Bool
zero_tool_result_policy p =
    not p.inline_images
    && length p.mime_types == 0
    && length p.image_details == 0
    && is_zero p.max_raw_image_bytes
    && is_zero p.max_images
    && is_zero p.max_width
    && is_zero p.max_height
    && is_zero p.max_pixels

abbrev pub allowed_mime : List Bytes
allowed_mime = codes "image/gif" ∷ codes "image/jpeg" ∷ codes "image/png" ∷ codes "image/webp" ∷ []

abbrev pub known_details : List Bytes
known_details = codes "auto" ∷ codes "low" ∷ codes "high" ∷ []

-- The loop over the MIME types, with those that have been seen.
unfoldable pub check_mime_types : List Bytes → List Bytes → Result (Unit {0})
unfolding bytes_beq
check_mime_types seen [] = ok tt
check_mime_types seen (mime ∷ mimes) =
    let rest = check_mime_types (mime ∷ seen) mimes in
    if length mime == 0 || ltb 127 (length mime)
    then err mime_length
    else if not (contains mime allowed_mime)
    then err mime_unsupported
    else if contains mime seen
    then err mime_duplicate
    else rest

unfoldable pub check_image_details : List Bytes → List Bytes → Result (Unit {0})
unfolding bytes_beq
check_image_details seen [] = ok tt
check_image_details seen (detail ∷ details) =
    let rest = check_image_details (detail ∷ seen) details in
    if not (contains detail known_details)
    then err detail_invalid
    else if contains detail seen
    then err detail_duplicate
    else rest

abbrev pub few_details : List Bytes → Result (Unit {0})
few_details details = if ltb 3 (length details) then err too_many_details else ok tt

-- A number between two bounds, where `low` is 0 or 1.
abbrev pub between : PolicyError → ℕ → ℕ → ℤ → Result ℕ
between e low high (negsuc n) = err e
between e low high (pos n) = if ltb n low || ltb high n then err e else ok n

unfoldable pub normalize_tool_result_policy : ToolResultPolicy ℤ → Result (ToolResultPolicy ℕ)
unfolding zero_tool_result_policy check_mime_types check_image_details
normalize_tool_result_policy p =
    if not p.inline_images
    then (if zero_tool_result_policy p then ok zero_policy else err has_limits)
    else if ltb (length p.mime_types) 1 || ltb 16 (length p.mime_types)
    then err mime_count
    else check_mime_types [] p.mime_types >>= λ mimes. few_details p.image_details >>= λ few.
        check_image_details [] p.image_details >>= λ details.
        between raw_bytes 1 (7 * 2 ^ 20) p.max_raw_image_bytes >>= λ bytes.
        between image_count 1 64 p.max_images >>= λ images.
        between dimensions 0 8192 p.max_width >>= λ width.
        between dimensions 0 8192 p.max_height >>= λ height.
        between dimensions 0 40000000 p.max_pixels >>= λ pixels. ok (record {
          inline_images = true;
          mime_types = p.mime_types;
          image_details = p.image_details;
          max_raw_image_bytes = bytes;
          max_images = images;
          max_width = width;
          max_height = height;
          max_pixels = pixels;
        })
