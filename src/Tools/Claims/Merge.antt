-- ===== src/Tools/Claims/Merge.antt =====
-- `normalizeClaims` and `extendClaims`: what the merged claims are.
use mathlib.Core.Logic.{inl, inr}
use serpe.Base.{
  ℕ, suc, ◌≤◌, ◌≡◌, refl, subst, ◌∙◌, Option, none, some, List, [], ◌∷◌, ◌++◌, ◌==◌, ==_iff,
  if◌then◌else◌, ltb, Assoc, lookup, lookup-put, IsUnique, IsUnique-put, Bytes, nat_eq, bytes_eq,
  arith, Bool-cases, Option-cases, bytes_ltb,
}
use serpe.Tools.Claims.{
  Claim, access_read, access_write, Result, ok, err, validate_claim, merge_claim, merge_claims,
  insert_claim, sorted_claims, normalize_claims, extend_claims, entries, IsDistinct,
}

-- The stronger of an access that may be there and another one.
abbrev pub join : Option ℕ → ℕ → ℕ
join none y = y
join (some x) y = if ltb x y then y else x

-- The strongest access that a list claims of a resource, beyond what is known of it.
abbrev pub strongest : Bytes → List Claim → Option ℕ → Option ℕ
strongest r [] o = o
strongest r (c ∷ cs) o = strongest r cs (if c.resource == r then some (join o c.access) else o)

lookup-insert_claim :
    (c : Claim) (ds : List Claim) (r : Bytes)
    → lookup c.resource (entries ds) ≡ none
    → lookup r (entries (insert_claim c ds))
      ≡ (if c.resource == r then some c.access else lookup r (entries ds))
unfolding insert_claim lookup
lookup-insert_claim c [] r h = refl
lookup-insert_claim c (d ∷ ds) r h = ground (
  arith,
  lookup-insert_claim c ds r,
  ==_iff c.resource r,
  ==_iff d.resource r,
  ==_iff d.resource c.resource,
)

IsDistinct-insert_claim :
    (c : Claim) (ds : List Claim)
    → IsDistinct ds
    → lookup c.resource (entries ds) ≡ none
    → IsDistinct (insert_claim c ds)
unfolding insert_claim lookup
IsDistinct-insert_claim c [] u h = (refl, tt)
IsDistinct-insert_claim c (d ∷ ds) u h = elim (Bool-cases (bytes_ltb d.resource c.resource)) [
  | inl after ↦
      let apart : lookup c.resource (entries ds) ≡ none = ground arith in
      rw after (
        lookup-insert_claim c ds d.resource apart
            ∙ ground (arith, ==_iff c.resource d.resource, ==_iff d.resource d.resource, u.0),
        IsDistinct-insert_claim c ds u.1 apart,
      )
  | inr before ↦ rw before (h, u)
]

sorted_claims_lem :
    (m : Assoc Bytes ℕ)
    → IsUnique m
    → IsDistinct (sorted_claims m)
      × ((r : Bytes) → lookup r (entries (sorted_claims m)) ≡ lookup r m)
unfolding sorted_claims lookup
sorted_claims_lem [] u = (tt, λ r. refl)
sorted_claims_lem ((j, a) ∷ m) u =
    let (d, same) = sorted_claims_lem m u.1 in
    let c : Claim = record { resource = j; access = a } in
    (
      IsDistinct-insert_claim c (sorted_claims m) d (same j ∙ u.0),
      λ r. ground (arith, lookup-insert_claim c (sorted_claims m) r (same j ∙ u.0), same r),
    )

-- Every access of a merged map is one of the two constants.
abbrev IsBounded : Assoc Bytes ℕ → Type 0
IsBounded m = (k : Bytes) (v : ℕ) → lookup k m ≡ some v → v ≤ access_write

access_bound : (c : Claim) → validate_claim c ≡ none → c.access ≤ access_write
unfolding validate_claim
access_bound c h = ground (arith, ==_iff c.access access_read, ==_iff c.access access_write)

merge_claim_lem :
    (c : Claim) (m : Assoc Bytes ℕ) (r : Bytes)
    → validate_claim c ≡ none
    → IsBounded m
    → lookup r (merge_claim c m)
      ≡ (if c.resource == r then some (join (lookup r m) c.access) else lookup r m)
unfolding merge_claim
merge_claim_lem c m r v b = elim (Option-cases (lookup c.resource m)) [
  | inl absent ↦
      rw (absent, merge_claim)
        (ground (arith, lookup-put c.resource r c.access m, ==_iff c.resource r))
  | inr (prev, found) ↦
      rw (found, merge_claim)
        (ground (
          arith,
          lookup-put c.resource r c.access m,
          ==_iff c.resource r,
          access_bound c v,
          b c.resource prev found,
        ))
]

merge_claim-IsBounded :
    (c : Claim) (m : Assoc Bytes ℕ)
    → validate_claim c ≡ none
    → IsBounded m
    → IsBounded (merge_claim c m)
merge_claim-IsBounded c m v b k x h =
    ground
      (arith, merge_claim_lem c m k v b, access_bound c v, b k x, join_bound (lookup k m) (b k))
  where
    join_bound :
        (o : Option ℕ) → ((x : ℕ) → o ≡ some x → x ≤ access_write) → join o c.access ≤ access_write
    join_bound none f = access_bound c v
    join_bound (some x) f = ground (arith, f x refl, access_bound c v)

merge_claim-IsUnique : (c : Claim) (m : Assoc Bytes ℕ) → IsUnique m → IsUnique (merge_claim c m)
unfolding merge_claim
merge_claim-IsUnique c m u = elim (Option-cases (lookup c.resource m)) [
  | inl absent ↦ rw (absent, merge_claim) (IsUnique-put c.resource c.access m u)
  | inr (prev, found) ↦
      rw (found, merge_claim) (ground (arith, IsUnique-put c.resource c.access m u))
]

merge_claims_lem :
    (i : ℕ) (cs : List Claim) (m out : Assoc Bytes ℕ)
    → merge_claims i cs m ≡ ok out
    → IsUnique m
    → IsBounded m
    → IsUnique out × ((r : Bytes) → lookup r out ≡ strongest r cs (lookup r m))
unfolding merge_claims
merge_claims_lem i [] m out h u b =
    subst (λ m'. IsUnique m' × ((r : Bytes) → lookup r m' ≡ lookup r m)) (cc) (u, λ r. refl)
merge_claims_lem i (c ∷ cs) m out h u b = elim (Option-cases (validate_claim c)) [
  | inr (e, bad) ↦ absurd (ground arith)
  | inl good ↦
      let (uo, same) =
        merge_claims_lem (suc i) cs (merge_claim c m) out (ground arith)
          (merge_claim-IsUnique c m u) (merge_claim-IsBounded c m good b) in
      (uo, λ r. same r ∙ rw (merge_claim_lem c m r good b))
]

-- A normalized list claims each resource once, with the strongest access that was asked for.
pub normalize_claims-strongest :
    (cs out : List Claim)
    → normalize_claims cs ≡ ok out
    → IsDistinct out × ((r : Bytes) → lookup r (entries out) ≡ strongest r cs none)
unfolding normalize_claims lookup
normalize_claims-strongest cs out h = merged (merge_claims 0 cs []) refl
  where
    merged :
        (m : Result (Assoc Bytes ℕ))
        → merge_claims 0 cs [] ≡ m
        → IsDistinct out × ((r : Bytes) → lookup r (entries out) ≡ strongest r cs none)
    merged (err e) p = absurd (ground (arith, p))
    merged (ok m) p =
        let (u, same) = merge_claims_lem 0 cs [] m p tt (λ k v q. absurd (cc)) in
        let (d, sorted) = sorted_claims_lem m u in
        subst (λ l. IsDistinct l × ((r : Bytes) → lookup r (entries l) ≡ strongest r cs none))
          (ground (arith, p)) (d, λ r. sorted r ∙ same r)

strongest-append :
    (r : Bytes) (cs ds : List Claim) (o : Option ℕ)
    → strongest r (cs ++ ds) o ≡ strongest r ds (strongest r cs o)
strongest-append r [] ds o = refl
strongest-append r (c ∷ cs) ds o = strongest-append r cs ds _

strongest-ge :
    (r : Bytes) (cs : List Claim) (x : ℕ) → (y : ℕ) × (strongest r cs (some x) ≡ some y) × (x ≤ y)
strongest-ge r [] x = (x, refl, omega arith)
strongest-ge r (c ∷ cs) x = elim (Bool-cases (c.resource == r)) [
  | inl eq ↦
      let (y, p, q) = strongest-ge r cs (join (some x) c.access) in rw eq (y, p, ground arith)
  | inr ne ↦ rw ne (strongest-ge r cs x)
]

join-ge : (o : Option ℕ) (x y : ℕ) → join o x ≤ y → x ≤ y
join-ge none x y q = q
join-ge (some z) x y q = ground arith

strongest-lookup :
    (r : Bytes) (cs : List Claim) (o : Option ℕ) (x : ℕ)
    → lookup r (entries cs) ≡ some x
    → (y : ℕ) × (strongest r cs o ≡ some y) × (x ≤ y)
unfolding lookup
strongest-lookup r [] o x h = absurd (cc)
strongest-lookup r (c ∷ cs) o x h = elim (Bool-cases (c.resource == r)) [
  | inl eq ↦
      let (y, p, q) = strongest-ge r cs (join o c.access) in
      rw eq (y, p, ground (arith, join-ge o c.access y q))
  | inr ne ↦ rw ne (strongest-lookup r cs o x (rw ne at h))
]

-- Activation keeps every static claim: a resource that the static claims name is claimed afterwards,
-- at the same access or at a stronger one.
pub extend_claims-keeps :
    (base extra out : List Claim) (resource : Bytes) (access : ℕ)
    → extend_claims base extra ≡ ok out
    → lookup resource (entries base) ≡ some access
    → (y : ℕ) × (lookup resource (entries out) ≡ some y) × (access ≤ y)
unfolding extend_claims
extend_claims-keeps base extra out r x h p =
    let (_, same) = normalize_claims-strongest (base ++ extra) out (ground arith) in
    let (y, q, le) = strongest-lookup r base none x p in
    let (z, q', le') = strongest-ge r extra y in
    (z, same r ∙ strongest-append r base extra none ∙ rw q q', ground arith)
