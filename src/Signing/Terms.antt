-- ===== src/Signing/Terms.antt =====
-- The sealed terms of an approval (crates/bloom-signer-api/src/approval.rs) and the scope of a key
-- that a Petal owns (crates/bloom-signer-api/src/petal_key.rs): the fields that signing reads.
use bloom_signer.Prelude.{ℕ, List, Option}
use bloom_signer.Signing.Request.{CryptoSuite, KeyRef}

pub data ApprovalSubject : Type 0 where
  petal_subject : (package_hash route : ℕ) (agent_id : Option ℕ) → ApprovalSubject
  cli_subject : (client_id command_class : ℕ) → ApprovalSubject
  system_subject : (component_id operation_class : ℕ) → ApprovalSubject

pub record PetalRouteGrant : Type 0 where
  pub route : ℕ
  pub allowed_operation_classes : List ℕ
  pub provenance_digest : ℕ

pub data ApprovalSelector : Type 0 where
  exact_selector : (ordered_payload_digests ordered_hashes : List ℕ) → ApprovalSelector
  petal_selector :
      (package_hash route : ℕ) (allowed_operation_classes : List ℕ)
      (route_grants : List PetalRouteGrant) (required_claim_assurance : ℕ)
      → ApprovalSelector

pub record SlidingWindow : Type 0 where
  pub maximum : ℕ
  pub duration_ms : ℕ

pub record ValueWindow : Type 0 where
  pub maximum : ℕ
  pub duration_ms : ℕ

pub record ValueLimit : Type 0 where
  pub asset : ℕ
  pub lifetime : ℕ
  pub rolling_windows : List ValueWindow

pub record ApprovalLimits : Type 0 where
  pub max_operations : ℕ
  pub max_signatures : ℕ
  pub operation_rate_limits : List SlidingWindow
  pub signature_rate_limits : List SlidingWindow
  pub value_limits : List ValueLimit

pub record SealedApprovalTerms : Type 0 where
  pub subject : ApprovalSubject
  pub wallet_id : ℕ
  pub key_ref : KeyRef
  pub allowed_crypto_suites : List CryptoSuite
  pub selector : ApprovalSelector
  pub limits : ApprovalLimits
  pub wallet_revocation_epoch : ℕ
  pub policy_version : ℕ
  pub policy_digest : ℕ
  pub not_before_ms : ℕ
  pub expires_at_ms : ℕ

pub record PetalKeyScope : Type 0 where
  pub wallet_id : ℕ
  pub package_hash : ℕ
  pub key_slot : ℕ
  pub allowed_routes : List ℕ
  pub allowed_operation_classes : List ℕ
  pub allowed_crypto_suites : List CryptoSuite
  pub maximum_lifetime_ms : ℕ
