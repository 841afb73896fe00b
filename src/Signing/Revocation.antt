-- ===== src/Signing/Revocation.antt =====
-- The signed records of a revocation, crates/bloom-signer-api/src/revocation.rs, and the rows of
-- `revocation_operations` of crates/bloom-signer/src/engine.rs.
use bloom_signer.Prelude.{ℕ, List, Option}

pub record ApprovalTombstone : Type 0 where
  pub approval_id : ℕ
  pub wallet_id : ℕ
  pub wallet_revocation_epoch : ℕ
  pub reason : List ℕ
  pub operation_id : ℕ
  pub revoked_at_ms : ℕ
  pub issuer_service_id : List ℕ
  pub key_id : ℕ
  pub signature : List ℕ

pub record WalletTombstone : Type 0 where
  pub wallet_id : ℕ
  pub wallet_revocation_epoch : ℕ
  pub operation_id : ℕ
  pub revoked_at_ms : ℕ
  pub issuer_service_id : List ℕ
  pub key_id : ℕ
  pub signature : List ℕ

pub record RevocationState : Type 0 where
  pub wallet_id : ℕ
  pub wallet_revocation_epoch : ℕ
  pub wallet_tombstone : Option WalletTombstone
  pub approval_tombstone_digest : ℕ
  pub approval_tombstone_count : ℕ
  pub observed_at_ms : ℕ
  pub issuer_service_id : List ℕ
  pub key_id : ℕ
  pub signature : List ℕ

-- The result that is stored as text: of one of the two calls, so it parses as that type only.
pub data RevocationResult : Type 0 where
  approval_result : ApprovalTombstone → RevocationResult
  wallet_result : RevocationState → RevocationResult

pub record RevocationOperation : Type 0 where
  pub operation_id : ℕ
  pub wallet_id : ℕ
  pub request_digest : ℕ
  pub result : RevocationResult

-- The requests that are digested to recognise a retry.
pub data RevocationRequest : Type 0 where
  approval_request :
      (approval_id : ℕ) (reason : List ℕ) (operation_id revoked_at_ms : ℕ) → RevocationRequest
  wallet_request : (wallet_id operation_id revoked_at_ms : ℕ) → RevocationRequest

-- The records that the signer signs, each under its domain, with an empty signature.
pub data Signable : Type 0 where
  approval_signable : ApprovalTombstone → Signable
  wallet_signable : WalletTombstone → Signable
  state_signable : RevocationState → Signable
