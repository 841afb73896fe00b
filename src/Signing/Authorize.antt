-- ===== src/Signing/Authorize.antt =====
-- `authorize_sign` of crates/bloom-signer/src/engine.rs.
use bloom_signer.Prelude.{
  ℕ, ◌||◌, not, [], ◌∷◌, ◌++◌, Option, none, some, ◌==◌, ltb, leb, any, find?, update_where,
}
use bloom_signer.Prelude.Result.{
  Result, ok, err, panic, reject_if as reject_when, ◌>>◌ as ◌>>>◌, approval_expired,
  ceremony_replay, approval_not_found, approval_revoked, malformed_frame, operation_id_conflict,
  ambiguous_provider_effect, service_unavailable,
}
use bloom_signer.Prelude.Tx.{Tx, ◌>>=◌, ◌>>◌, pure, gets, modify, lift, reject_if, ok_or}
use bloom_signer.Signing.Request.{
  UnsignedSignRequest, SignRequest, validate_shape, retry_binding_digest,
}
use bloom_signer.Signing.Terms.{SealedApprovalTerms}
use bloom_signer.Signing.State.{
  OperationState, reserved, dispatched, committed, released, quarantined, other_state,
  SignAuthorization, new_operation, same_operation_retry, Approval, Attempt, Operation, SignAudit,
  sign_authorized, Tables, Engine, Deps, ClockDecision, mutation_transaction, is_approval,
  is_attempt, is_operation, is_anchor,
}
use bloom_signer.Signing.Checks.{
  verify_broker_signature, validate_against_approval, require_key_available, wallet_epoch,
}
use bloom_signer.Signing.Petal.{validate_petal_key_approval}
use bloom_signer.Signing.Limits.{reserve_parser_free_limits}

-- The checks before the transaction.
unfoldable pub check_request : Deps → SignRequest → ℕ → Result (Unit {0})
check_request deps request now =
    validate_shape deps.hashes request
    >>> verify_broker_signature deps request
    >>> reject_when
        (ltb now request.unsigned.not_before_ms || leb request.unsigned.expires_at_ms now)
        approval_expired

-- What the durable state of an operation says of a retry.
unfoldable pub check_retry_state : OperationState → Result SignAuthorization
check_retry_state reserved = ok same_operation_retry
check_retry_state dispatched = err ambiguous_provider_effect
check_retry_state quarantined = err ambiguous_provider_effect
check_retry_state committed = ok same_operation_retry
check_retry_state released = err operation_id_conflict
check_retry_state (other_state _) = err malformed_frame

unfoldable pub check_retry : UnsignedSignRequest → ℕ → Operation → Result SignAuthorization
check_retry u binding row =
    reject_when
      (not (row.operation_digest == u.operation_digest)
        || not (row.approval_id == u.approval_id)
        || not (row.retry_binding_digest == binding))
      operation_id_conflict
    >>> check_retry_state row.state

abbrev pub reserved_row : UnsignedSignRequest → ℕ → ℕ → Operation
reserved_row u binding now = record {
  operation_id = u.operation_id;
  operation_digest = u.operation_digest;
  retry_binding_digest = binding;
  approval_id = u.approval_id;
  signature_count = u.signature_count;
  accepted_at_ms = now;
  state = reserved;
  normalized_result = none;
}

abbrev pub set_counters : ℕ → ℕ → Approval → Approval
set_counters operations signatures row = record row {
  committed_operations = operations;
  committed_signatures = signatures;
}

-- A new operation: the limits, then the rows. An anchor of the same operation is a key conflict.
unfoldable pub reserve_operation :
    UnsignedSignRequest → SealedApprovalTerms → ℕ → ClockDecision → Tx Tables SignAuthorization
reserve_operation u terms binding clock = do
  counters ← (λ t. lift (reserve_parser_free_limits t u terms clock.effective_now_ms) t)
  modify λ t. record t {
    operations = t.operations ++ reserved_row u binding clock.effective_now_ms ∷ [];
  }
  reject_if (← gets (λ t. any (is_anchor u.operation_id) t.anchors)) service_unavailable
  modify λ t. record t {
    anchors =
        t.anchors
        ++ record {
          operation_id = u.operation_id;
          observed_utc_ms = clock.observed_utc_ms;
          monotonic_anchor_ns = clock.monotonic_anchor_ns;
          boot_epoch = clock.boot_epoch;
        }
          ∷ [];
  }
  modify λ t. record t {
    approvals =
        update_where (is_approval u.approval_id)
          (set_counters counters.next_operations counters.next_signatures) t.approvals;
  }
  pure new_operation

-- An operation that has a row is a retry.
unfoldable pub retry_or_reserve :
    UnsignedSignRequest
    → SealedApprovalTerms
    → ℕ
    → ClockDecision
    → Option Operation
    → Tx Tables SignAuthorization
retry_or_reserve u terms binding clock (some row) = lift (check_retry u binding row)
retry_or_reserve u terms binding clock none = reserve_operation u terms binding clock

-- The checks of the request against the state of the engine.
unfoldable pub check_approval :
    Deps → UnsignedSignRequest → ℕ → Tables → Tx Tables SealedApprovalTerms
check_approval deps u now t = do
  reject_if (any (is_attempt u.attempt_id) t.attempts) ceremony_replay
  approval ← ok_or (find? (is_approval u.approval_id) t.approvals) approval_not_found
  reject_if (not approval.active) approval_revoked
  terms ← ok_or approval.terms malformed_frame
  lift (require_key_available deps t terms.key_ref)
  lift (validate_petal_key_approval t terms now)
  lift (validate_against_approval u terms now)
  reject_if (not (wallet_epoch t terms.wallet_id == terms.wallet_revocation_epoch)) approval_revoked
  pure terms

unfoldable pub authorization_event : SignRequest → SignAuthorization → SignAudit
authorization_event request authorization =
    let u = request.unsigned in
    sign_authorized u.operation_id u.operation_digest u.attempt_id u.attempt_digest u.approval_id
      u.key_ref u.crypto_suite u.ordered_payload_digests u.ordered_hashes
      u.validation_receipt_digest u.broker_signing_key_id request.broker_signature authorization

abbrev pub attempt_row : UnsignedSignRequest → Attempt
attempt_row u = record {
  attempt_id = u.attempt_id;
  attempt_digest = u.attempt_digest;
  operation_id = u.operation_id;
}

unfoldable pub authorize_body :
    Deps → SignRequest → ClockDecision → Tx Tables (SignAuthorization × Option SignAudit)
authorize_body deps request clock = do
  binding ← lift (retry_binding_digest deps.hashes request.unsigned)
  terms ← (λ t. check_approval deps request.unsigned clock.effective_now_ms t t)
  existing ← gets (λ t. find? (is_operation request.unsigned.operation_id) t.operations)
  authorization ← retry_or_reserve request.unsigned terms binding clock existing
  modify λ t. record t { attempts = t.attempts ++ attempt_row request.unsigned ∷ [] }
  pure (authorization, some (authorization_event request authorization))

-- The transaction begins when the checks before it have passed.
unfoldable pub authorize_after :
    Deps
    → SignRequest
    → ClockDecision
    → Result (Unit {0})
    → Engine
    → Result SignAuthorization × Engine
authorize_after deps request clock (ok _) s =
    mutation_transaction deps (authorize_body deps request clock) s
authorize_after deps request clock (err e) s = (err e, s)
authorize_after deps request clock panic s = (panic, s)

-- `authorize_sign`
unfoldable pub authorize_sign :
    Deps → SignRequest → ClockDecision → Engine → Result SignAuthorization × Engine
authorize_sign deps request clock s =
    authorize_after deps request clock (check_request deps request clock.effective_now_ms) s
