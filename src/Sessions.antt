-- ===== src/Sessions.antt =====
-- runtime/sessions: the identifiers of session.go and the pages of store.go.
pub mod DrainClose
pub mod Locks
pub mod Memory
pub mod Page
use serpe.Base.{
  in_range, Bool, true, false, not, ◌&&◌, ◌||◌, Option, none, some, List, [], ◌∷◌, ◌-◌, ◌==◌,
  nat_eq, ltb, leb, if◌then◌else◌, ℕ, Bytes, bytes_eq, bytes_beq, codes, length,
}

pub data StoreError : Type 0 where
  invalid store_closed not_found already_exists cancelled : StoreError

abbrev pub is_letter : ℕ → Bool
is_letter c = in_range b'A' b'Z' c || in_range b'a' b'z' c

-- What the loop of `validID` accepts. A byte from 0x80 on belongs to a rune that is no ASCII.
abbrev pub is_id_byte : ℕ → Bool
is_id_byte c = is_letter c || in_range b'0' b'9' c || c == b'.' || c == b'_' || c == b'-'

unfoldable pub all_id_bytes : Bytes → Bool
all_id_bytes [] = true
all_id_bytes (c ∷ s) = is_id_byte c && all_id_bytes s

-- The part in front of the first point, in capitals.
unfoldable pub base_name : Bytes → Bytes
base_name [] = []
base_name (c ∷ s) =
    let rest = base_name s in
    if c == b'.' then [] else (if in_range b'a' b'z' c then c - 32 else c) ∷ rest

unfoldable pub is_one_of : Bytes → List Bytes → Bool
is_one_of s [] = false
is_one_of s (t ∷ ts) = s == t || is_one_of s ts

-- `COM1` to `COM9`, and so for `LPT`.
unfoldable pub is_numbered : Bytes → Bytes → Bool
is_numbered (a ∷ b ∷ c ∷ []) (x ∷ y ∷ z ∷ d ∷ []) =
    a == x && b == y && c == z && in_range b'1' b'9' d
is_numbered _ _ = false

unfoldable pub is_windows_reserved_name : Bytes → Bool
unfolding base_name is_one_of is_numbered bytes_beq
is_windows_reserved_name id =
    let base = base_name id in
    is_one_of base (codes "CON" ∷ codes "PRN" ∷ codes "AUX" ∷ codes "NUL" ∷ [])
    || is_numbered (codes "COM") base
    || is_numbered (codes "LPT") base

-- `validID`. Its test with `strings.TrimSpace` refuses nothing that the test of the bytes does not.
unfoldable pub valid_id : Bytes → Bool
unfolding all_id_bytes is_windows_reserved_name
valid_id id =
    not (id == [])
    && not (id == codes ".")
    && not (id == codes "..")
    && leb (length id) 128
    && all_id_bytes id
    && not (is_windows_reserved_name id)

-- `validatePage`
unfoldable pub valid_page : Bytes → ℕ → Bool
unfolding valid_id
valid_page after limit = (after == [] || valid_id after) && leb 1 limit && leb limit 100
