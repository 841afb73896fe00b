-- ===== src/Service/Types.antt =====
-- What the service and its backends exchange: crates/bloom-signer-backend-api/src/lib.rs, with
-- `CryptoInputKind` and `SignatureEncoding` of crates/bloom-signer-api/src/crypto.rs, `SigningResult` of
-- crates/bloom-signer-api/src/signing.rs and `map_backend_error` of crates/bloom-signer/src/service.rs.
use bloom_signer.Prelude.{ℕ, Bool, true, false, List, Option}
use bloom_signer.Prelude.Result.{
  ProtocolErrorCode, backend_invalid_request, service_unavailable, backend_unsupported,
  ambiguous_provider_effect,
}
use bloom_signer.Signing.Request.{
  CryptoSuite, secp256k1_keccak256_recoverable, secp256k1_sha256_recoverable, ed25519_message,
  KeyRef,
}

pub data CryptoInputKind : Type 0 where
  digest32_kind message_kind : CryptoInputKind

-- `input_kind`
unfoldable pub input_kind : CryptoSuite → CryptoInputKind
input_kind secp256k1_keccak256_recoverable = digest32_kind
input_kind secp256k1_sha256_recoverable = digest32_kind
input_kind ed25519_message = message_kind

pub data SignatureEncoding : Type 0 where
  secp256k1_recoverable65 ed25519_raw64 : SignatureEncoding

-- `signature_encoding`
unfoldable pub signature_encoding : CryptoSuite → SignatureEncoding
signature_encoding secp256k1_keccak256_recoverable = secp256k1_recoverable65
signature_encoding secp256k1_sha256_recoverable = secp256k1_recoverable65
signature_encoding ed25519_message = ed25519_raw64

unfoldable pub encoding_eq : SignatureEncoding → SignatureEncoding → Bool
encoding_eq secp256k1_recoverable65 secp256k1_recoverable65 = true
encoding_eq ed25519_raw64 ed25519_raw64 = true
encoding_eq _ _ = false

pub data BackendInput : Type 0 where
  digest32_input : ℕ → BackendInput
  message_input : List ℕ → BackendInput

pub record BackendSignRequest : Type 0 where
  pub provider_attempt_id : ℕ
  pub key_ref : KeyRef
  pub crypto_suite : CryptoSuite
  pub input : BackendInput
  pub deadline_ms : ℕ

pub record BackendSignature : Type 0 where
  pub crypto_suite : CryptoSuite
  pub encoding : SignatureEncoding
  pub bytes : List ℕ
  pub provider_correlation_id : Option (List ℕ)

pub data BackendError : Type 0 where
  definitive_rejected retryable_before_acceptance unsupported : BackendError
  invalid_request indeterminate_acceptance : BackendError

-- What a backend answers.
pub data BackendReply : Type 0 where
  signed : BackendSignature → BackendReply
  failed : BackendError → BackendReply

-- `map_backend_error`
unfoldable pub map_backend_error : BackendError → ProtocolErrorCode
map_backend_error definitive_rejected = backend_invalid_request
map_backend_error invalid_request = backend_invalid_request
map_backend_error retryable_before_acceptance = service_unavailable
map_backend_error unsupported = backend_unsupported
map_backend_error indeterminate_acceptance = ambiguous_provider_effect

pub record NormalizedSignature : Type 0 where
  pub crypto_suite : CryptoSuite
  pub bytes : List ℕ

pub record SigningResult : Type 0 where
  pub operation_id : ℕ
  pub operation_digest : ℕ
  pub signatures : List NormalizedSignature
  pub signer_receipt_digest : ℕ
  pub broker_receipt_digest : ℕ

-- The receipt that `signer_receipt_digest` hashes.
pub record Receipt : Type 0 where
  pub operation_id : ℕ
  pub operation_digest : ℕ
  pub signatures : List NormalizedSignature
  pub validation_receipt_digest : ℕ

-- A call of a backend, with the operation and the index of the hash that it was made for.
pub record BackendCall : Type 0 where
  pub operation_id : ℕ
  pub child_index : ℕ
  pub request : BackendSignRequest

-- A backend answers by what it was asked before, and may fail in any way.
abbrev pub Backend : Type 0
Backend = List BackendCall → BackendSignRequest → BackendReply
