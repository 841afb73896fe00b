-- ===== src/Signing/Revoke.antt =====
-- `revoke_approval` and `revoke_all` of crates/bloom-signer/src/engine.rs, with
-- `load_revocation_operation` and `store_revocation_operation`.
use bloom_signer.Prelude.{
  ℕ, Bool, false, ◌||◌, List, [], ◌∷◌, ◌++◌, Option, none, some, ◌==◌, ltb, leb, if◌then◌else◌, any,
  find?, update_where, rows_where, length,
}
use bloom_signer.Prelude.Result.{
  Result, ok, err, panic, malformed_frame, operation_id_conflict, approval_not_found,
  service_unavailable, revocation_epoch_unreconciled, ◌>>=◌ as ◌>>>=◌,
}
use bloom_signer.Prelude.Tx.{Tx, ◌>>=◌, ◌>>◌, pure, gets, modify, lift, reject_if, ok_or}
use bloom_signer.Registry.Path.{codes}
use bloom_signer.Signing.Revocation.{
  ApprovalTombstone, WalletTombstone, RevocationState, RevocationResult, approval_result,
  wallet_result, RevocationOperation, approval_request, wallet_request, approval_signable,
  wallet_signable, state_signable,
}
use bloom_signer.Signing.State.{
  Approval, WalletState, SignAudit, approval_revoked, approval_revocation_reconciled,
  wallet_revoked, Tables, Engine, Deps, mutation_transaction, is_approval, is_wallet,
}
use bloom_signer.Signing.Checks.{wallet_epoch}
use bloom_signer.Signing.Limits.{checked_add}

unfoldable pub is_revocation : ℕ → RevocationOperation → Bool
is_revocation operation row = row.operation_id == operation

unfoldable pub is_approval_tombstone : ℕ → ApprovalTombstone → Bool
is_approval_tombstone approval row = row.approval_id == approval

unfoldable pub of_wallet : ℕ → ApprovalTombstone → Bool
of_wallet wallet row = row.wallet_id == wallet

unfoldable pub is_wallet_tombstone : ℕ → WalletTombstone → Bool
is_wallet_tombstone wallet row = row.wallet_id == wallet

unfoldable pub belongs_to : ℕ → Approval → Bool
belongs_to wallet row = row.wallet_id == wallet

abbrev pub deactivated : Approval → Approval
deactivated row = record row { active = false }

-- A stored result parses as the type of the call that stored it.
unfoldable pub as_approval_result : RevocationResult → Result ApprovalTombstone
as_approval_result (approval_result tombstone) = ok tombstone
as_approval_result (wallet_result _) = err malformed_frame

unfoldable pub as_wallet_result : RevocationResult → Result RevocationState
as_wallet_result (approval_result _) = err malformed_frame
as_wallet_result (wallet_result state) = ok state

unfoldable pub loaded :
    {A : Type 0}
    → (RevocationResult → Result A)
    → ℕ
    → Option RevocationOperation
    → Result (Option A)
loaded parse digest none = ok none
loaded parse digest (some row) =
    if row.request_digest == digest
    then (parse row.result >>>= λ a. ok (some a))
    else err operation_id_conflict

-- `load_revocation_operation`
unfoldable pub load_revocation_operation :
    {A : Type 0} → (RevocationResult → Result A) → ℕ → ℕ → Tx Tables (Option A)
load_revocation_operation parse operation digest = do
  row ← gets (λ t. find? (is_revocation operation) t.revocation_operations)
  lift (loaded parse digest row)

-- `store_revocation_operation`: the operation id is the primary key.
unfoldable pub store_revocation_operation : ℕ → ℕ → ℕ → RevocationResult → Tx Tables (Unit {0})
store_revocation_operation operation wallet digest result = do
  reject_if (← gets (λ t. any (is_revocation operation) t.revocation_operations))
      service_unavailable
  modify λ t. record t {
    revocation_operations =
        t.revocation_operations
        ++ record {
          operation_id = operation;
          wallet_id = wallet;
          request_digest = digest;
          result = result;
        }
          ∷ [];
  }

-- An approval that is tombstoned already: the operation is recorded with that tombstone.
unfoldable pub reconcile :
    ℕ → ℕ → ApprovalTombstone → ℕ → Tx Tables (ApprovalTombstone × Option SignAudit)
reconcile operation digest existing wallet = do
  store_revocation_operation operation wallet digest (approval_result existing)
  pure (existing, some (approval_revocation_reconciled existing))

abbrev pub unsigned_tombstone : Deps → ℕ → ℕ → ℕ → List ℕ → ℕ → ℕ → ApprovalTombstone
unsigned_tombstone deps approval wallet epoch reason operation now = record {
  approval_id = approval;
  wallet_id = wallet;
  wallet_revocation_epoch = epoch;
  reason = reason;
  operation_id = operation;
  revoked_at_ms = now;
  issuer_service_id = codes "bloom-signer";
  key_id = deps.revocation_key_id;
  signature = [];
}

unfoldable pub revoke_new :
    Deps → ℕ → List ℕ → ℕ → ℕ → ℕ → ℕ → Tx Tables (ApprovalTombstone × Option SignAudit)
revoke_new deps approval reason operation now digest wallet = do
  epoch ← gets (λ t. wallet_epoch t wallet)
  let unsigned = unsigned_tombstone deps approval wallet epoch reason operation now
  signature ← lift (deps.sign_record (approval_signable unsigned))
  let tombstone : ApprovalTombstone = record unsigned { signature = signature }
  modify λ t. record t { approvals = update_where (is_approval approval) deactivated t.approvals }
  modify λ t. record t { approval_tombstones = t.approval_tombstones ++ tombstone ∷ [] }
  store_revocation_operation operation wallet digest (approval_result tombstone)
  pure (tombstone, some (approval_revoked tombstone))

unfoldable pub revoke_found :
    Deps
    → ℕ
    → List ℕ
    → ℕ
    → ℕ
    → ℕ
    → ℕ
    → Option ApprovalTombstone
    → Tx Tables (ApprovalTombstone × Option SignAudit)
revoke_found deps approval reason operation now digest wallet (some existing) =
    reconcile operation digest existing wallet
revoke_found deps approval reason operation now digest wallet none =
    revoke_new deps approval reason operation now digest wallet

-- What follows the look at the operation id: a retry returns the stored result.
unfoldable pub revoke_unless :
    Deps
    → ℕ
    → List ℕ
    → ℕ
    → ℕ
    → ℕ
    → Option ApprovalTombstone
    → Tx Tables (ApprovalTombstone × Option SignAudit)
revoke_unless deps approval reason operation now digest (some result) = pure (result, none)
revoke_unless deps approval reason operation now digest none = do
  row ← ok_or (← gets (λ t. find? (is_approval approval) t.approvals)) approval_not_found
  existing ← gets (λ t. find? (is_approval_tombstone approval) t.approval_tombstones)
  revoke_found deps approval reason operation now digest row.wallet_id existing

unfoldable pub revoke_body :
    Deps → ℕ → List ℕ → ℕ → ℕ → ℕ → Tx Tables (ApprovalTombstone × Option SignAudit)
revoke_body deps approval reason operation now digest = do
  stored ← load_revocation_operation as_approval_result operation digest
  revoke_unless deps approval reason operation now digest stored

unfoldable pub revoke_after :
    Deps → ℕ → List ℕ → ℕ → ℕ → Result ℕ → Engine → Result ApprovalTombstone × Engine
revoke_after deps approval reason operation now (ok digest) s =
    mutation_transaction deps (revoke_body deps approval reason operation now digest) s
revoke_after deps approval reason operation now (err e) s = (err e, s)
revoke_after deps approval reason operation now panic s = (panic, s)

abbrev pub bad_reason : List ℕ → Bool
bad_reason reason = length reason == 0 || ltb 256 (length reason)

-- `revoke_approval`
unfoldable pub revoke_approval :
    Deps → ℕ → List ℕ → ℕ → ℕ → Engine → Result ApprovalTombstone × Engine
revoke_approval deps approval reason operation now s =
    if bad_reason reason
    then (err malformed_frame, s)
    else revoke_after deps approval reason operation now
        (deps.request_digest (approval_request approval reason operation now)) s

abbrev pub with_epoch : ℕ → WalletState → WalletState
with_epoch epoch row = record row { revocation_epoch = epoch }

-- `INSERT … ON CONFLICT(wallet_id) DO UPDATE SET revocation_epoch`
unfoldable pub put_epoch : ℕ → ℕ → List WalletState → List WalletState
put_epoch wallet epoch rows =
    if any (is_wallet wallet) rows
    then update_where (is_wallet wallet) (with_epoch epoch) rows
    else rows ++ record { wallet_id = wallet; revocation_epoch = epoch } ∷ []

unfoldable pub put_wallet_tombstone : WalletTombstone → List WalletTombstone → List WalletTombstone
put_wallet_tombstone new rows =
    if any (is_wallet_tombstone new.wallet_id) rows
    then update_where (is_wallet_tombstone new.wallet_id) (λ _. new) rows
    else rows ++ new ∷ []

-- `ORDER BY approval_id`: the texts of digests have one length, so their order is the numbers'.
unfoldable pub insert_by_id : ApprovalTombstone → List ApprovalTombstone → List ApprovalTombstone
insert_by_id row [] = row ∷ []
insert_by_id row (next ∷ rows) =
    let rest = insert_by_id row rows in
    if leb row.approval_id next.approval_id then row ∷ next ∷ rows else next ∷ rest

unfoldable pub order_by_id : List ApprovalTombstone → List ApprovalTombstone
order_by_id [] = []
order_by_id (row ∷ rows) = insert_by_id row (order_by_id rows)

-- `approval_tombstones`
unfoldable pub approval_tombstones : ℕ → Tables → List ApprovalTombstone
approval_tombstones wallet t = order_by_id (rows_where (of_wallet wallet) t.approval_tombstones)

-- A signed summary of a wallet's revocations.
unfoldable pub signed_state :
    Deps → ℕ → ℕ → Option WalletTombstone → List ApprovalTombstone → ℕ → Tx Tables RevocationState
signed_state deps wallet epoch tombstone tombstones now = do
  digest ← lift (deps.tombstones_digest tombstones)
  let unsigned : RevocationState = record {
    wallet_id = wallet;
    wallet_revocation_epoch = epoch;
    wallet_tombstone = tombstone;
    approval_tombstone_digest = digest;
    approval_tombstone_count = length tombstones;
    observed_at_ms = now;
    issuer_service_id = codes "bloom-signer";
    key_id = deps.revocation_key_id;
    signature = [];
  }
  signature ← lift (deps.sign_record (state_signable unsigned))
  pure (record unsigned { signature = signature })

unfoldable pub revoke_all_new :
    Deps → ℕ → ℕ → ℕ → ℕ → Tx Tables (RevocationState × Option SignAudit)
revoke_all_new deps wallet operation now digest = do
  epoch ← gets (λ t. wallet_epoch t wallet)
  next ← ok_or (checked_add epoch 1) revocation_epoch_unreconciled
  let unsigned : WalletTombstone = record {
    wallet_id = wallet;
    wallet_revocation_epoch = next;
    operation_id = operation;
    revoked_at_ms = now;
    issuer_service_id = codes "bloom-signer";
    key_id = deps.revocation_key_id;
    signature = [];
  }
  signature ← lift (deps.sign_record (wallet_signable unsigned))
  let tombstone : WalletTombstone = record unsigned { signature = signature }
  modify λ t. record t { wallet_states = put_epoch wallet next t.wallet_states }
  modify λ t. record t { wallet_tombstones = put_wallet_tombstone tombstone t.wallet_tombstones }
  modify λ t. record t { approvals = update_where (belongs_to wallet) deactivated t.approvals }
  tombstones ← gets (approval_tombstones wallet)
  state ← signed_state deps wallet next (some tombstone) tombstones now
  store_revocation_operation operation wallet digest (wallet_result state)
  pure (state, some (wallet_revoked state))

unfoldable pub revoke_all_unless :
    Deps → ℕ → ℕ → ℕ → ℕ → Option RevocationState → Tx Tables (RevocationState × Option SignAudit)
revoke_all_unless deps wallet operation now digest (some result) = pure (result, none)
revoke_all_unless deps wallet operation now digest none =
    revoke_all_new deps wallet operation now digest

unfoldable pub revoke_all_body :
    Deps → ℕ → ℕ → ℕ → ℕ → Tx Tables (RevocationState × Option SignAudit)
revoke_all_body deps wallet operation now digest = do
  stored ← load_revocation_operation as_wallet_result operation digest
  revoke_all_unless deps wallet operation now digest stored

unfoldable pub revoke_all_after :
    Deps → ℕ → ℕ → ℕ → Result ℕ → Engine → Result RevocationState × Engine
revoke_all_after deps wallet operation now (ok digest) s =
    mutation_transaction deps (revoke_all_body deps wallet operation now digest) s
revoke_all_after deps wallet operation now (err e) s = (err e, s)
revoke_all_after deps wallet operation now panic s = (panic, s)

-- `revoke_all`
unfoldable pub revoke_all : Deps → ℕ → ℕ → ℕ → Engine → Result RevocationState × Engine
revoke_all deps wallet operation now s =
    revoke_all_after deps wallet operation now
      (deps.request_digest (wallet_request wallet operation now)) s
