-- ===== src/Signing/Sound.antt =====
-- What a successful `authorize_sign` of crates/bloom-signer/src/engine.rs says of the request, of the
-- tables before and of the tables after.
use bloom_signer.Prelude.{
  inl, inr, Option-cases, ℕ, ◌+◌, ◌≤◌, true, false, List, [], ◌∷◌, ◌++◌, none, some, ◌≡◌, ◌≢◌, ap,
  ◌∙◌, ◌⊎◌, arith, any, find?, update_where, All,
}
use bloom_signer.Prelude.Result.{ok}
use bloom_signer.Signing.Request.{UnsignedSignRequest, SignRequest, retry_binding_digest}
use bloom_signer.Signing.Terms.{SealedApprovalTerms}
use bloom_signer.Signing.State.{
  Approval, Attempt, Operation, OperationState, reserved, committed, SignAuthorization,
  new_operation, same_operation_retry, is_wallet, WalletState, Tables, Engine, Deps, ClockDecision,
  is_approval, is_attempt, is_operation,
}
use bloom_signer.Signing.Checks.{wallet_epoch, epoch_of}
use bloom_signer.Signing.Authorize.{
  check_retry_state, check_retry, reserved_row, set_counters, attempt_row, authorize_sign,
}
use bloom_signer.Signing.Within.{IsWithinTerms, validate_against_approval-IsWithinTerms}
use bloom_signer.Signing.Genuine.{IsGenuine, check_request-IsGenuine}
use bloom_signer.Signing.Available.{
  IsAvailable, require_key_available-IsAvailable, IsScoped, validate_petal_key_approval-IsScoped,
}
use bloom_signer.Signing.Authorized.{Outcome, retried, made, authorize_sign-Authorized}
use bloom_signer.Signing.Steps.{limits-Admitted}

-- What happened to the operation: a retry of the same request leaves it alone, a new one is written
-- as RESERVED and counted, within the limits.
pub data IsHandled (u : UnsignedSignRequest) (terms : SealedApprovalTerms) (approval : Approval)
    (binding now : ℕ) (t t' : Tables) : SignAuthorization → Type 0 where
  same :
      (row : Operation)
      → find? (is_operation u.operation_id) t.operations ≡ some row
      → row.operation_digest ≡ u.operation_digest
      → row.approval_id ≡ u.approval_id
      → row.retry_binding_digest ≡ binding
      → (row.state ≡ reserved) ⊎ (row.state ≡ committed)
      → t'.operations ≡ t.operations
      → t'.approvals ≡ t.approvals
      → IsHandled u terms approval binding now t t' same_operation_retry
  fresh :
      find? (is_operation u.operation_id) t.operations ≡ none
      → approval.committed_operations + 1 ≤ terms.limits.max_operations
      → approval.committed_signatures + u.signature_count ≤ terms.limits.max_signatures
      → t'.operations ≡ t.operations ++ reserved_row u binding now ∷ []
      → t'.approvals
        ≡ update_where
            (is_approval u.approval_id)
            (set_counters
              (approval.committed_operations + 1)
              (approval.committed_signatures + u.signature_count))
            t.approvals
      → IsHandled u terms approval binding now t t' new_operation

-- The wallet's epoch is that of the terms: the stored one, or 0 for a wallet without a row.
abbrev IsCurrent : Tables → SealedApprovalTerms → Type 0
IsCurrent t terms =
    ((find? (is_wallet terms.wallet_id) t.wallet_states ≡ none)
      × (terms.wallet_revocation_epoch ≡ 0))
    ⊎ ((row : WalletState) × (find? (is_wallet terms.wallet_id) t.wallet_states ≡ some row)
        × (row.revocation_epoch ≡ terms.wallet_revocation_epoch))

wallet_epoch-IsCurrent :
    (t : Tables) (terms : SealedApprovalTerms)
    → wallet_epoch t terms.wallet_id ≡ terms.wallet_revocation_epoch
    → IsCurrent t terms
unfolding wallet_epoch epoch_of
wallet_epoch-IsCurrent t terms h =
    elim (Option-cases (find? (is_wallet terms.wallet_id) t.wallet_states)) [
      | inl e ↦ inl (e, ground arith)
      | inr w ↦ let e = w.1 in inr (w.0, w.1, ground arith)
    ]

-- An authorization of a request, at a time, from the tables `t` to the tables `t'`.
pub record IsSound (deps : Deps) (request : SignRequest) (now : ℕ) (t t' : Tables)
    (authorization : SignAuthorization) : Type 0 where
  pub approval : Approval
  pub terms : SealedApprovalTerms
  pub binding : ℕ
  pub genuine : IsGenuine deps request now
  pub stored : find? (is_approval request.unsigned.approval_id) t.approvals ≡ some approval
  pub active : approval.active ≡ true
  pub parsed : approval.terms ≡ some terms
  pub within : IsWithinTerms request.unsigned terms now
  pub available : IsAvailable deps t terms.key_ref
  pub scoped : IsScoped t terms now
  pub epoch : IsCurrent t terms
  pub bound : retry_binding_digest deps.hashes request.unsigned ≡ ok binding
  pub handled : IsHandled request.unsigned terms approval binding now t t' authorization
  pub unused : All (λ a. a.attempt_id ≢ request.unsigned.attempt_id) t.attempts
  pub recorded : t'.attempts ≡ t.attempts ++ attempt_row request.unsigned ∷ []

not_used :
    (id : ℕ) (rows : List Attempt)
    → any (is_attempt id) rows ≡ false
    → All (λ a. a.attempt_id ≢ id) rows
unfolding any is_attempt
not_used id [] h = tt
not_used id (row ∷ rows) h = (λ e. ground arith, not_used id rows (ground arith))

retry-open :
    (u : UnsignedSignRequest) (binding : ℕ) (row : Operation) (a : SignAuthorization)
    → check_retry u binding row ≡ ok a
    → (a ≡ same_operation_retry)
      × (row.operation_digest ≡ u.operation_digest)
      × (row.approval_id ≡ u.approval_id)
      × (row.retry_binding_digest ≡ binding)
      × ((row.state ≡ reserved) ⊎ (row.state ≡ committed))
unfolding check_retry check_retry_state
retry-open u binding row a h = (
  (from row.state (ground arith)).0,
  ground arith,
  ground arith,
  ground arith,
  (from row.state (ground arith)).1,
)
  where
    from :
        (state : OperationState)
        → check_retry_state state ≡ ok a
        → (a ≡ same_operation_retry) × ((state ≡ reserved) ⊎ (state ≡ committed))
    from state h = ground arith

module _ (u : UnsignedSignRequest) (terms : SealedApprovalTerms) (approval : Approval) (binding : ℕ)
    (clock : ClockDecision) (t middle t' : Tables)
    (stored : find? (is_approval u.approval_id) t.approvals ≡ some approval)
    (operations : t'.operations ≡ middle.operations)
    (approvals : t'.approvals ≡ middle.approvals) where
  Outcome-IsHandled :
      (a : SignAuthorization)
      → Outcome u terms binding clock t a middle
      → IsHandled u terms approval binding clock.effective_now_ms t t' a
  Outcome-IsHandled a (retried row found checked e) =
      let w = retry-open u binding row a checked in
      rw w.0 (
        same row found w.1 w.2 w.3 w.4 (operations ∙ ap (λ x. x.operations) e)
          (approvals ∙ ap (λ x. x.approvals) e))
  Outcome-IsHandled a (made counters new none_found limits o c rest) =
      let w = limits-Admitted t u terms clock.effective_now_ms approval counters stored limits in
      rw new (
        fresh none_found (let f = w.operations_fit in let g = w.one_more in omega arith)
          (let f = w.signatures_fit in let g = w.signatures_more in omega arith) (operations ∙ o)
          (approvals ∙ rw (← w.one_more) (rw (← w.signatures_more) c)))

pub authorize_sign-IsSound :
    (deps : Deps) (request : SignRequest) (clock : ClockDecision) (s s' : Engine)
    (authorization : SignAuthorization)
    → authorize_sign deps request clock s ≡ (ok authorization, s')
    → IsSound deps request clock.effective_now_ms s.tables s'.tables authorization
authorize_sign-IsSound deps request clock s s' authorization e =
    let w = authorize_sign-Authorized deps request clock s s' authorization e in
    let a = w.1.approved in
    record {
      approval = a.approval;
      terms = w.1.terms;
      binding = w.1.binding;
      genuine = check_request-IsGenuine deps request clock.effective_now_ms w.0;
      stored = a.stored;
      active = a.active;
      parsed = a.parsed;
      within = validate_against_approval-IsWithinTerms request.unsigned _ _ a.within_terms;
      available = require_key_available-IsAvailable deps _ _ a.key_available;
      scoped = validate_petal_key_approval-IsScoped _ _ _ a.petal_in_scope;
      epoch = wallet_epoch-IsCurrent s.tables w.1.terms a.epoch_current;
      bound = w.1.bound;
      handled =
          Outcome-IsHandled request.unsigned w.1.terms a.approval w.1.binding clock s.tables
            w.1.middle s'.tables a.stored w.1.operations w.1.approvals authorization w.1.outcome;
      unused = not_used request.unsigned.attempt_id s.tables.attempts a.fresh_attempt;
      recorded = w.1.attempts;
    }
