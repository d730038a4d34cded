-- ===== src/Loops/Ledger.antt =====
-- `callLedger` of runtime/loops/run_state.go. What `accept` asks of a call's arguments is
-- `canonicalJSONObject` (internal/jsonvalue), a parameter here.
pub use serpe.Base.{ok, err}
use serpe.Base.{
  Fallible, ◌≡◌, ◌≢◌, refl, Bool, true, false, not, ◌||◌, List, [], ◌∷◌, ◌==◌, ==_iff,
  if◌then◌else◌, lookup, has, put, Bytes, bytes_eq, arith, subst,
}
use serpe.Models.{ToolCall, Ids, has_call, has-put}

pub data LedgerError : Type 0 where
  empty_id duplicate_id invalid_arguments : LedgerError

abbrev pub Result {ℓ} : Type ℓ → Type ℓ
Result A = Fallible LedgerError A

-- The loop of `newCallLedger`, over the calls of all messages in order.
unfoldable pub new_call_ledger : List ToolCall → Ids → Result Ids
unfolding lookup put
new_call_ledger [] seen = ok seen
new_call_ledger (call ∷ calls) seen =
    let rest = new_call_ledger calls (put call.id tt seen) in
    if call.id == [] then err empty_id else if has call.id seen then err duplicate_id else rest

module _ (is_object : Bytes → Bool) where
  -- The first loop of `accept`: the whole batch is checked before anything is written.
  unfoldable pub check_calls : List ToolCall → Ids → Ids → Result Ids
  unfolding lookup put
  check_calls [] batch seen = ok batch
  check_calls (call ∷ calls) batch seen =
      let rest = check_calls calls (put call.id tt batch) seen in
      if call.id == []
      then err empty_id
      else if not (is_object call.arguments)
      then err invalid_arguments
      else if has call.id batch
      then err duplicate_id
      else if has call.id seen
      then err duplicate_id
      else rest

-- The second loop: the ids of the batch join those that were seen.
unfoldable pub commit_ids : Ids → Ids → Ids
unfolding put
commit_ids [] seen = seen
commit_ids ((id, _) ∷ batch) seen = commit_ids batch (put id tt seen)

unfoldable pub accept : (Bytes → Bool) → List ToolCall → Ids → Result Ids
unfolding check_calls commit_ids
accept is_object calls seen = elim (check_calls is_object calls [] seen) [
  | err e ↦ err e
  | ok batch ↦ ok (commit_ids batch seen)
]

-- Every call has an id, an object of arguments, and an id of its own.
abbrev pub IsFreshBatch : (Bytes → Bool) → Ids → List ToolCall → Type 0
IsFreshBatch is_object seen [] = Unit
IsFreshBatch is_object seen (call ∷ calls) =
    (call.id ≢ [])
    × (is_object call.arguments ≡ true)
    × (has call.id seen ≡ false)
    × (has_call call.id calls ≡ false)
    × IsFreshBatch is_object seen calls

check_calls_inv :
    (is_object : Bytes → Bool) (call : ToolCall) (calls : List ToolCall) (batch seen out : Ids)
    → check_calls is_object (call ∷ calls) batch seen ≡ ok out
    → (call.id ≢ [])
      × (is_object call.arguments ≡ true)
      × (has call.id batch ≡ false)
      × (has call.id seen ≡ false)
      × (check_calls is_object calls (put call.id tt batch) seen ≡ ok out)
unfolding check_calls
check_calls_inv o call calls batch seen out h = ground (arith, ==_iff call.id [])

check_calls_lem :
    (is_object : Bytes → Bool) (calls : List ToolCall) (batch seen out : Ids)
    → check_calls is_object calls batch seen ≡ ok out
    → ((id : Bytes) → has id out ≡ (has id batch || has_call id calls))
      × ((id : Bytes) → has id batch ≡ true → has_call id calls ≡ false)
      × IsFreshBatch is_object seen calls
unfolding check_calls
check_calls_lem o [] batch seen out h = (λ id. ground arith, λ id q. refl, tt)
check_calls_lem o (call ∷ calls) batch seen out h =
    let (named, object, new, unseen, more) = check_calls_inv o call calls batch seen out h in
    let (same, apart, fresh) = check_calls_lem o calls (put call.id tt batch) seen out more in
    (
      λ id. ground (arith, same id, has-put call.id id batch),
      λ id q. ground (arith, apart id, has-put call.id id batch, ==_iff call.id id),
      (
        named,
        object,
        unseen,
        ground
            (arith, apart call.id, has-put call.id call.id batch, (==_iff call.id call.id).1 refl),
        fresh,
      ),
    )

has-commit_ids :
    (id : Bytes) (batch seen : Ids) → has id (commit_ids batch seen) ≡ (has id batch || has id seen)
unfolding commit_ids lookup
has-commit_ids id [] seen = refl
has-commit_ids id ((k, _) ∷ batch) seen =
    ground (arith, has-commit_ids id batch (put k tt seen), has-put k id seen)

-- A batch is accepted only if every call has an id of its own that was not seen before and an object
-- of arguments, and then exactly the ids of its calls join those that were seen.
pub accept_lem :
    (is_object : Bytes → Bool) (calls : List ToolCall) (seen out : Ids)
    → accept is_object calls seen ≡ ok out
    → IsFreshBatch is_object seen calls
      × ((id : Bytes) → has id out ≡ (has_call id calls || has id seen))
unfolding accept lookup
accept_lem o calls seen out h = checked (check_calls o calls [] seen) refl
  where
    checked :
        (r : Result Ids)
        → check_calls o calls [] seen ≡ r
        → IsFreshBatch o seen calls
          × ((id : Bytes) → has id out ≡ (has_call id calls || has id seen))
    checked (err e) p = absurd (cc (p, h))
    checked (ok batch) p =
        let (same, _, fresh) = check_calls_lem o calls [] seen batch p in
        let all : commit_ids batch seen ≡ out = ground (arith, p) in
        (
          fresh,
          λ id.
              subst (λ m. has id m ≡ (has_call id calls || has id seen)) all
                (ground (arith, has-commit_ids id batch seen, same id)),
        )

check_calls_complete :
    (is_object : Bytes → Bool) (calls : List ToolCall) (batch seen : Ids)
    → ((id : Bytes) → has id batch ≡ true → has_call id calls ≡ false)
    → IsFreshBatch is_object seen calls
    → (out : Ids) × (check_calls is_object calls batch seen ≡ ok out)
unfolding check_calls
check_calls_complete o [] batch seen apart fresh = (batch, refl)
check_calls_complete o (call ∷ calls) batch seen apart (named, object, unseen, own, fresh) =
    let (out, done) = check_calls_complete o calls (put call.id tt batch) seen still_apart fresh in
    (out, ground (arith, done, apart call.id, ==_iff call.id [], (==_iff call.id call.id).1 refl))
  where
    still_apart : (id : Bytes) → has id (put call.id tt batch) ≡ true → has_call id calls ≡ false
    still_apart id h = ground (arith, apart id, has-put call.id id batch, ==_iff call.id id)

-- The ledger accepts every batch of calls with new ids of their own and objects of arguments.
pub accept_complete :
    (is_object : Bytes → Bool) (calls : List ToolCall) (seen : Ids)
    → IsFreshBatch is_object seen calls
    → (out : Ids) × (accept is_object calls seen ≡ ok out)
unfolding accept lookup
accept_complete o calls seen fresh =
    let (batch, done) = check_calls_complete o calls [] seen (λ id h. absurd (cc)) fresh in
    (commit_ids batch seen, rw (done, accept))
