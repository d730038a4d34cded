-- ===== src/Tools/Claims.antt =====
-- core/tools/resource.go and the claim types of core/tools/tool.go: resource claims of a tool call.
pub mod Merge
pub mod Conflict
pub use serpe.Base.{ok, err}
use serpe.Base.{
  Fallible, ℕ, suc, ◌+◌, ◌-◌, ltb, Bool, true, false, not, ◌&&◌, ◌||◌, Option, none, some, List, [],
  ◌∷◌, ◌++◌, ◌==◌, if◌then◌else◌, Assoc, lookup, put, length, Bytes, bytes_ltb, valid_string,
  contains_control, codes, IsUnique, nat_eq, bytes_eq,
}

-- `Access` is a uint8: other values than the two constants are refused by `validate_claim`.
abbrev pub access_read : ℕ
access_read = 1

abbrev pub access_write : ℕ
access_write = 2

pub record Claim : Type 0 where
  pub resource : Bytes
  pub access : ℕ

pub data ClaimError : Type 0 where
  invalid_access empty_resource not_utf8 resource_too_long control_character : ClaimError

pub data Error : Type 0 where
  claim_budget : Error
  at_claim : ℕ → ClaimError → Error
  weakened_write : Error

abbrev pub Result {ℓ} : Type ℓ → Type ℓ
Result A = Fallible Error A

abbrev pub max_claims_per_call : ℕ
max_claims_per_call = 64

abbrev pub max_resource_bytes : ℕ
max_resource_bytes = 4096

abbrev pub root_resource : Bytes
root_resource = codes "serpe.tools.root.v1"

unfoldable pub root_read : Claim
root_read = record { resource = root_resource; access = access_read }

unfoldable pub root_write : Claim
root_write = record { resource = root_resource; access = access_write }

-- `none` is the accepted claim.
unfoldable pub validate_claim : Claim → Option ClaimError
unfolding valid_string contains_control
validate_claim c =
    if not (c.access == access_read) && not (c.access == access_write)
    then some invalid_access
    else if c.resource == []
    then some empty_resource
    else if not (valid_string c.resource)
    then some not_utf8
    else if ltb max_resource_bytes (length c.resource)
    then some resource_too_long
    else if contains_control c.resource
    then some control_character
    else none

-- One round of the merge loop of `normalizeClaims`.
unfoldable pub merge_claim : Claim → Assoc Bytes ℕ → Assoc Bytes ℕ
unfolding lookup put
merge_claim c merged = elim (lookup c.resource merged) [
  | none ↦ put c.resource c.access merged
  | some prev ↦
      if c.access == access_write || ltb prev c.access
      then put c.resource c.access merged
      else merged
]

unfoldable pub merge_claims : ℕ → List Claim → Assoc Bytes ℕ → Result (Assoc Bytes ℕ)
unfolding validate_claim merge_claim
merge_claims i [] merged = ok merged
merge_claims i (c ∷ cs) merged =
    let rest = merge_claims (suc i) cs (merge_claim c merged) in
    elim (validate_claim c) [ none ↦ rest | some e ↦ err (at_claim i e) ]

-- `sort.Slice` by resource: the resources differ, so every sort gives this list.
unfoldable pub insert_claim : Claim → List Claim → List Claim
insert_claim c [] = c ∷ []
insert_claim c (d ∷ ds) =
    let rest = insert_claim c ds in if bytes_ltb d.resource c.resource then d ∷ rest else c ∷ d ∷ ds

unfoldable pub sorted_claims : Assoc Bytes ℕ → List Claim
unfolding insert_claim bytes_ltb
sorted_claims [] = []
sorted_claims ((r, a) ∷ m) = insert_claim (record { resource = r; access = a }) (sorted_claims m)

abbrev sort_merged : Result (Assoc Bytes ℕ) → Result (List Claim)
sort_merged (ok m) = ok (sorted_claims m)
sort_merged (err e) = err e

unfoldable pub normalize_claims : List Claim → Result (List Claim)
unfolding merge_claims sorted_claims
normalize_claims cs =
    if ltb max_claims_per_call (length cs)
    then err claim_budget
    else sort_merged (merge_claims 0 cs [])

-- The map `ib` of `claimsConflict` and `have` of `extendClaims`: a later entry replaces an earlier.
unfoldable pub index_claims : List Claim → Assoc Bytes ℕ → Assoc Bytes ℕ
unfolding put
index_claims [] m = m
index_claims (c ∷ cs) m = index_claims cs (put c.resource c.access m)

unfoldable pub any_conflict : List Claim → Assoc Bytes ℕ → Bool
unfolding lookup
any_conflict [] ib = false
any_conflict (c ∷ cs) ib = elim (lookup c.resource ib) [
  | none ↦ any_conflict cs ib
  | some other ↦
      if c.access == access_write || other == access_write then true else any_conflict cs ib
]

abbrev is_empty {ℓ} : {A : Type ℓ} → List A → Bool
is_empty [] = true
is_empty (_ ∷ _) = false

unfoldable pub claims_conflict : List Claim → List Claim → Bool
unfolding any_conflict index_claims
claims_conflict a b = if is_empty a || is_empty b then false else any_conflict a (index_claims b [])

unfoldable pub weakens : List Claim → Assoc Bytes ℕ → Bool
unfolding lookup
weakens [] have = false
weakens (c ∷ cs) have = elim (lookup c.resource have) [
  | none ↦ weakens cs have
  | some prev ↦ if prev == access_write && c.access == access_read then true else weakens cs have
]

unfoldable pub extend_claims : List Claim → List Claim → Result (List Claim)
unfolding normalize_claims weakens index_claims
extend_claims base extra =
    if ltb max_claims_per_call (length extra)
      || ltb (max_claims_per_call - length extra) (length base)
    then err claim_budget
    else if weakens extra (index_claims base [])
    then err weakened_write
    else normalize_claims (base ++ extra)

-- A claim list as a map from resources.
abbrev pub entries : List Claim → Assoc Bytes ℕ
entries [] = []
entries (c ∷ cs) = (c.resource, c.access) ∷ entries cs

-- No resource is claimed twice.
abbrev pub IsDistinct : List Claim → Type 0
IsDistinct cs = IsUnique (entries cs)
