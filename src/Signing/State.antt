-- ===== src/Signing/State.antt =====
-- The tables of crates/bloom-signer/src/engine.rs that signing reads and writes, what it takes from
-- outside, and `mutation_transaction` with `append_audit`.
use bloom_signer.Prelude.{ℕ, Bool, true, false, List, Option, none, some, ◌==◌, bytes_eq}
use bloom_signer.Prelude.Result.{Result, ok, err, panic, service_unavailable}
use bloom_signer.Prelude.Tx.{Tx}
use bloom_signer.Registry.Types.{Allocation}
use bloom_signer.Signing.Request.{KeyRef, CryptoSuite, Hashes}
use bloom_signer.Signing.Revocation.{
  ApprovalTombstone, WalletTombstone, RevocationState, RevocationOperation, RevocationRequest,
  Signable,
}
use bloom_signer.Signing.Terms.{SealedApprovalTerms, PetalKeyScope}

-- The `state` text of an operation.
pub data OperationState : Type 0 where
  reserved dispatched committed released quarantined : OperationState
  other_state : ℕ → OperationState

unfoldable pub state_eq : OperationState → OperationState → Bool
state_eq reserved reserved = true
state_eq dispatched dispatched = true
state_eq committed committed = true
state_eq released released = true
state_eq quarantined quarantined = true
state_eq (other_state a) (other_state b) = a == b
state_eq _ _ = false

pub data SignAuthorization : Type 0 where
  new_operation same_operation_retry : SignAuthorization

pub data SignerOperationEffect : Type 0 where
  committed_effect released_effect quarantined_effect : SignerOperationEffect

-- `as_str` of an effect.
abbrev pub effect_state : SignerOperationEffect → OperationState
effect_state committed_effect = committed
effect_state released_effect = released
effect_state quarantined_effect = quarantined

-- A row of `approvals`. The terms are `none` when the stored text does not parse.
pub record Approval : Type 0 where
  pub approval_id : ℕ
  pub wallet_id : ℕ
  pub terms : Option SealedApprovalTerms
  pub active : Bool
  pub committed_operations : ℕ
  pub committed_signatures : ℕ

pub record Attempt : Type 0 where
  pub attempt_id : ℕ
  pub attempt_digest : ℕ
  pub operation_id : ℕ

pub record Operation : Type 0 where
  pub operation_id : ℕ
  pub operation_digest : ℕ
  pub retry_binding_digest : ℕ
  pub approval_id : ℕ
  pub signature_count : ℕ
  pub accepted_at_ms : ℕ
  pub state : OperationState
  pub normalized_result : Option (List ℕ)

pub record ClockAnchor : Type 0 where
  pub operation_id : ℕ
  pub observed_utc_ms : Option ℕ
  pub monotonic_anchor_ns : ℕ
  pub boot_epoch : ℕ

pub data AuthorityClass : Type 0 where
  petal_class : AuthorityClass
  other_class : ℕ → AuthorityClass

unfoldable pub is_petal_class : AuthorityClass → Bool
is_petal_class petal_class = true
is_petal_class (other_class _) = false

pub record EnrolledKey : Type 0 where
  pub key_fingerprint : List ℕ
  pub key_ref_jcs : List ℕ
  pub available : Bool
  pub authority_class : AuthorityClass

pub record PetalScopeRow : Type 0 where
  pub key_fingerprint : List ℕ
  pub scope : Option PetalKeyScope
  pub created_at_ms : ℕ
  pub expires_at_ms : ℕ

pub record WalletState : Type 0 where
  pub wallet_id : ℕ
  pub revocation_epoch : ℕ

-- `ClockCondition`
pub data ClockCondition : Type 0 where
  healthy forward_jump_rejected untrusted rollback_frozen repaired : ClockCondition

-- The row of `clock_state`. The boot epoch is `none` when the stored text is malformed.
pub record ClockState : Type 0 where
  pub last_effective_ms : ℕ
  pub condition : ClockCondition
  pub observed_utc_ms : Option ℕ
  pub monotonic_anchor_ns : ℕ
  pub boot_epoch : Option ℕ

pub record ClockAudit : Type 0 where
  pub effective_now_ms : ℕ
  pub monotonic_anchor_ns : ℕ
  pub boot_epoch : ℕ

-- The payloads of the audit events of these calls.
pub data SignAudit : Type 0 where
  sign_authorized :
      (operation_id operation_digest attempt_id attempt_digest approval_id : ℕ) (key_ref : KeyRef)
      (crypto_suite : CryptoSuite) (ordered_payload_digests ordered_hashes : List ℕ)
      (validation_receipt_digest broker_key_id : ℕ) (broker_signature : List ℕ)
      (authorization : SignAuthorization)
      → SignAudit
  sign_finalized : (operation_id : ℕ) (effect : SignerOperationEffect) → SignAudit
  sign_result : (operation_id : ℕ) (normalized_result : List ℕ) → SignAudit
  backend_dispatched :
      (operation_id : ℕ) (key_ref : KeyRef) (provider_attempt_ids : List ℕ) → SignAudit
  approval_revoked approval_revocation_reconciled : ApprovalTombstone → SignAudit
  wallet_revoked : RevocationState → SignAudit
  clock_untrusted clock_initialized : ClockAudit → SignAudit
  clock_observed clock_rollback_frozen clock_forward_jump :
      (observed_utc_ms : ℕ) → ClockAudit → SignAudit
  clock_repaired : (prior_effective_ms : ℕ) → ClockAudit → SignAudit

pub record Tables : Type 0 where
  pub approvals : List Approval
  pub attempts : List Attempt
  pub operations : List Operation
  pub anchors : List ClockAnchor
  pub enrolled_keys : List EnrolledKey
  pub petal_key_scopes : List PetalScopeRow
  pub wallet_states : List WalletState
  pub derivation_allocations : List Allocation
  pub approval_tombstones : List ApprovalTombstone
  pub wallet_tombstones : List WalletTombstone
  pub revocation_operations : List RevocationOperation
  pub clock_state : Option ClockState
  pub audit : List SignAudit

-- The engine: the tables and the latch of the audit chain.
pub record Engine : Type 0 where
  pub tables : Tables
  pub audit_degraded : Bool

-- The types of the durable clock's evaluation, which is another repository's crate.
pub record PersistedClockState : Type 0 where
  pub last_effective_ms : ℕ
  pub monotonic_anchor_ns : ℕ
  pub boot_epoch : Option ℕ

pub record PlatformTimeReading : Type 0 where
  pub utc_ms : Option ℕ
  pub monotonic_elapsed_ms : ℕ
  pub monotonic_anchor_ns : ℕ

pub data DurableClockCondition : Type 0 where
  durable_healthy durable_untrusted durable_rollback durable_forward_jump : DurableClockCondition

pub record DurableDecision : Type 0 where
  pub effective_now_ms : ℕ
  pub condition : DurableClockCondition

-- What the engine is given: the key of the broker with the check of a signature, the backends, the
-- JSON text of a key reference, the audit chain, which verifies what is stored and may refuse an
-- entry, the key and the digests of revocation records, and the evaluation of the durable clock.
pub record Deps : Type 0 where
  pub hashes : Hashes
  pub hex_decode : ℕ → Option (List ℕ)
  pub broker_key_id : ℕ
  pub broker_verify : List ℕ → List ℕ → Bool
  pub key_ref_jcs : KeyRef → Option (List ℕ)
  pub key_is_available : KeyRef → Result Bool
  pub audit_verifies : List SignAudit → Bool
  pub append_audit : SignAudit → List SignAudit → Option (List SignAudit)
  pub revocation_key_id : ℕ
  pub request_digest : RevocationRequest → Result ℕ
  pub sign_record : Signable → Result (List ℕ)
  pub tombstones_digest : List ApprovalTombstone → Result ℕ
  pub evaluate_durable_clock :
      Option PersistedClockState → PlatformTimeReading → Option ℕ → ℕ → Option DurableDecision

-- `ClockDecision`
pub record ClockDecision : Type 0 where
  pub effective_now_ms : ℕ
  pub condition : ClockCondition
  pub observed_utc_ms : Option ℕ
  pub monotonic_anchor_ns : ℕ
  pub boot_epoch : ℕ

abbrev pub latched : Engine → Engine
latched s = record s { audit_degraded = true }

abbrev pub with_audit : Tables → List SignAudit → Engine → Engine
with_audit t audit s = record s { tables = record t { audit = audit } }

-- `append_audit` at the end of a transaction, then the commit. A refused entry rolls the
-- transaction back and latches the engine.
unfoldable pub audited :
    {A : Type 0} → A → Option (List SignAudit) → Tables → Engine → Result A × Engine
audited a (some audit) t s = (ok a, with_audit t audit s)
audited a none t s = (err service_unavailable, latched s)

-- The end of a transaction: an early commit has no audit entry.
unfoldable pub commit :
    {A : Type 0} → Deps → Result ((A × Option SignAudit) × Tables) → Engine → Result A × Engine
commit deps (ok ((a, some event), t)) s = audited a (deps.append_audit event t.audit) t s
commit deps (ok ((a, none), t)) s = (ok a, record s { tables = t })
commit deps (err e) s = (err e, s)
commit deps panic s = (panic, s)

-- `mutation_transaction` around a body: a degraded engine refuses, and an audit chain that does not
-- verify degrades it.
unfoldable pub transaction_at :
    {A : Type 0}
    → Bool
    → Bool
    → Deps
    → Tx Tables (A × Option SignAudit)
    → Engine
    → Result A × Engine
transaction_at true verifies deps body s = (err service_unavailable, s)
transaction_at false false deps body s = (err service_unavailable, latched s)
transaction_at false true deps body s = commit deps (body s.tables) s

unfoldable pub mutation_transaction :
    {A : Type 0} → Deps → Tx Tables (A × Option SignAudit) → Engine → Result A × Engine
mutation_transaction deps body s =
    transaction_at s.audit_degraded (deps.audit_verifies s.tables.audit) deps body s

-- The WHERE clauses on the keys of the tables.
unfoldable pub is_approval : ℕ → Approval → Bool
is_approval id row = row.approval_id == id

unfoldable pub is_attempt : ℕ → Attempt → Bool
is_attempt id row = row.attempt_id == id

unfoldable pub is_operation : ℕ → Operation → Bool
is_operation id row = row.operation_id == id

unfoldable pub is_anchor : ℕ → ClockAnchor → Bool
is_anchor id row = row.operation_id == id

unfoldable pub is_key : List ℕ → EnrolledKey → Bool
is_key fingerprint row = bytes_eq row.key_fingerprint fingerprint

unfoldable pub is_scope : List ℕ → PetalScopeRow → Bool
is_scope fingerprint row = bytes_eq row.key_fingerprint fingerprint

unfoldable pub is_wallet : ℕ → WalletState → Bool
is_wallet id row = row.wallet_id == id
