-- ===== src/Signing/Effects.antt =====
-- What follows an authorization, in crates/bloom-signer/src/engine.rs: `mark_operation_dispatched`,
-- `commit_operation_result`, `finalize_operation`, `operation_status` and `stored_operation_result`.
use bloom_signer.Prelude.{
  ℕ, ◌-◌, Bool, true, false, ◌&&◌, ◌||◌, not, List, [], ◌∷◌, Option, none, some, ◌==◌, ltb, find?,
  count_where, update_where,
}
use bloom_signer.Prelude.Result.{
  Result, ok, err, ok_or as some_or, ◌>>=◌ as ◌>>>=◌, backend_invalid_request, service_unavailable,
  operation_id_conflict, malformed_frame, approval_not_found,
}
use bloom_signer.Prelude.Tx.{Tx, ◌>>=◌, ◌>>◌, pure, gets, modify, reject_if, ok_or}
use bloom_signer.Signing.Request.{KeyRef}
use bloom_signer.Signing.State.{
  OperationState, reserved, dispatched, committed, released, quarantined, other_state, state_eq,
  SignerOperationEffect, committed_effect, released_effect, quarantined_effect, effect_state,
  Operation, SignAudit, sign_finalized, sign_result, backend_dispatched, Tables, Engine, Deps,
  mutation_transaction, is_approval, is_operation,
}
use bloom_signer.Signing.Authorize.{set_counters}

abbrev pub set_state : OperationState → Operation → Operation
set_state to row = record row { state = to }

abbrev pub set_result : List ℕ → Operation → Operation
set_result bytes row = record row { state = committed; normalized_result = some bytes }

-- `WHERE operation_id = ? AND state = ?`
unfoldable pub is_in_state : ℕ → OperationState → Operation → Bool
is_in_state operation state row = is_operation operation row && state_eq row.state state

-- `WHERE operation_id = ? AND state IN ('RESERVED', 'DISPATCHED')`
unfoldable pub is_open : ℕ → Operation → Bool
is_open operation row =
    is_operation operation row && (state_eq row.state reserved || state_eq row.state dispatched)

-- An UPDATE of one operation that must change exactly one row.
unfoldable pub update_one : (Operation → Bool) → (Operation → Operation) → Tx Tables (Unit {0})
update_one test change = do
  changed ← gets (λ t. count_where test t.operations)
  modify λ t. record t { operations = update_where test change t.operations }
  reject_if (not (changed == 1)) operation_id_conflict

unfoldable pub dispatch_body : ℕ → KeyRef → List ℕ → Tx Tables (Unit {0} × Option SignAudit)
dispatch_body operation key_ref attempts = do
  update_one (is_in_state operation reserved) (set_state dispatched)
  pure (tt, some (backend_dispatched operation key_ref attempts))

-- `mark_operation_dispatched`
unfoldable pub mark_operation_dispatched :
    Deps → ℕ → KeyRef → List ℕ → Engine → Result (Unit {0}) × Engine
mark_operation_dispatched deps operation key_ref attempts s =
    mutation_transaction deps (dispatch_body operation key_ref attempts) s

unfoldable pub result_body : ℕ → List ℕ → Tx Tables (Unit {0} × Option SignAudit)
result_body operation bytes = do
  update_one (is_open operation) (set_result bytes)
  pure (tt, some (sign_result operation bytes))

-- `commit_operation_result`
unfoldable pub commit_operation_result : Deps → ℕ → List ℕ → Engine → Result (Unit {0}) × Engine
commit_operation_result deps operation [] s = (err backend_invalid_request, s)
commit_operation_result deps operation (byte ∷ bytes) s =
    mutation_transaction deps (result_body operation (byte ∷ bytes)) s

-- A dispatched operation may be released or quarantined; a reserved one may be finalized as well.
unfoldable pub may_finalize : OperationState → SignerOperationEffect → Bool
may_finalize reserved effect = true
may_finalize dispatched released_effect = true
may_finalize dispatched quarantined_effect = true
may_finalize dispatched committed_effect = false
may_finalize _ effect = false

-- A release gives the operation and its signatures back to the approval.
unfoldable pub give_back : Operation → Tx Tables (Unit {0})
give_back row = do
  approval ←
      ok_or (← gets (λ t. find? (is_approval row.approval_id) t.approvals)) service_unavailable
  reject_if (ltb approval.committed_operations 1) malformed_frame
  reject_if (ltb approval.committed_signatures row.signature_count) malformed_frame
  modify λ t. record t {
    approvals =
        update_where (is_approval row.approval_id)
          (set_counters (approval.committed_operations - 1)
            (approval.committed_signatures - row.signature_count))
          t.approvals;
  }

unfoldable pub release_counters : SignerOperationEffect → Operation → Tx Tables (Unit {0})
release_counters released_effect row = give_back row
release_counters quarantined_effect row = pure tt
release_counters committed_effect row = pure tt

-- The operation's row, and whether it has the state already.
unfoldable pub finalize_row :
    ℕ → SignerOperationEffect → Operation → Bool → Tx Tables (Unit {0} × Option SignAudit)
finalize_row operation effect row true = pure (tt, none)
finalize_row operation effect row false = do
  reject_if (not (may_finalize row.state effect)) operation_id_conflict
  release_counters effect row
  modify λ t. record t {
    operations =
        update_where (is_operation operation) (set_state (effect_state effect)) t.operations;
  }
  pure (tt, some (sign_finalized operation effect))

unfoldable pub finalize_body : ℕ → SignerOperationEffect → Tx Tables (Unit {0} × Option SignAudit)
finalize_body operation effect = do
  row ← ok_or (← gets (λ t. find? (is_operation operation) t.operations)) service_unavailable
  finalize_row operation effect row (state_eq row.state (effect_state effect))

-- `finalize_operation`
unfoldable pub finalize_operation :
    Deps → ℕ → SignerOperationEffect → Engine → Result (Unit {0}) × Engine
finalize_operation deps operation committed_effect s = (err backend_invalid_request, s)
finalize_operation deps operation released_effect s =
    mutation_transaction deps (finalize_body operation released_effect) s
finalize_operation deps operation quarantined_effect s =
    mutation_transaction deps (finalize_body operation quarantined_effect) s

-- The state that a status shows.
pub data PublicState : Type 0 where
  public_reserved public_dispatched public_succeeded public_denied public_quarantined : PublicState

unfoldable pub public_state : OperationState → Result PublicState
public_state reserved = ok public_reserved
public_state dispatched = ok public_dispatched
public_state committed = ok public_succeeded
public_state released = ok public_denied
public_state quarantined = ok public_quarantined
public_state (other_state _) = err malformed_frame

pub record OperationPublicStatus (R : Type 0) : Type 0 where
  pub operation_id : ℕ
  pub operation_digest : ℕ
  pub state : PublicState
  pub result : Option R

-- The stored result, if there is one, must parse.
unfoldable pub parsed_result :
    {R : Type 0} → (List ℕ → Option R) → Option (List ℕ) → Result (Option R)
parsed_result parse none = ok none
parsed_result parse (some bytes) = some_or (parse bytes) malformed_frame >>>= λ r. ok (some r)

-- `operation_status`
unfoldable pub operation_status :
    {R : Type 0} → (List ℕ → Option R) → ℕ → Tables → Result (OperationPublicStatus R)
operation_status parse operation t =
    some_or (find? (is_operation operation) t.operations) approval_not_found >>>= λ row.
    public_state row.state >>>= λ state. parsed_result parse row.normalized_result >>>= λ result.
    ok (record {
      operation_id = operation;
      operation_digest = row.operation_digest;
      state = state;
      result = result;
    })

unfoldable pub result_of : Option Operation → Option (List ℕ)
result_of none = none
result_of (some row) = row.normalized_result

-- `stored_operation_result`
unfoldable pub stored_operation_result : ℕ → Tables → Option (List ℕ)
stored_operation_result operation t =
    result_of (find? (is_in_state operation committed) t.operations)
