-- ===== src/Signing/Request.antt =====
-- A sign request and the check of its shape: crates/bloom-signer-api/src/signing.rs, with `KeyRef`
-- and `CryptoSuite` of crates/bloom-signer-api/src/crypto.rs. An identifier or a digest that the
-- program only compares is a number; a byte string or a text that it reads is a list of bytes.
use bloom_signer.Prelude.{
  ℕ, ◌-◌, Bool, true, false, ◌&&◌, ◌||◌, not, List, ◌∷◌, Option, none, some, ◌==◌, ltb, leb,
  bytes_eq, length,
}
use bloom_signer.Prelude.Result.{
  Result, malformed_frame, operation_id_conflict, reject_if, ◌>>=◌, ◌>>◌,
}
use bloom_signer.Registry.Path.{Profile, profile_eq, codes, KeySpec, secp256k1, ed25519}

pub data SelectorKind : Type 0 where
  exact petal : SelectorKind

pub data CryptoSuite : Type 0 where
  secp256k1_keccak256_recoverable secp256k1_sha256_recoverable ed25519_message : CryptoSuite

unfoldable pub suite_eq : CryptoSuite → CryptoSuite → Bool
suite_eq secp256k1_keccak256_recoverable secp256k1_keccak256_recoverable = true
suite_eq secp256k1_sha256_recoverable secp256k1_sha256_recoverable = true
suite_eq ed25519_message ed25519_message = true
suite_eq _ _ = false

pub data DerivationRef : Type 0 where
  bip32_secp256k1 : (root_key_id path : ℕ) → DerivationRef
  bip39_multicurve : (wallet_seed_ref : ℕ) (profile : Profile) (path : ℕ) → DerivationRef

unfoldable pub derivation_eq : DerivationRef → DerivationRef → Bool
derivation_eq (bip32_secp256k1 k p) (bip32_secp256k1 k' p') = k == k' && p == p'
derivation_eq (bip39_multicurve w f p) (bip39_multicurve w' f' p') =
    w == w' && profile_eq f f' && p == p'
derivation_eq _ _ = false

unfoldable pub some_derivation_eq : Option DerivationRef → Option DerivationRef → Bool
some_derivation_eq none none = true
some_derivation_eq (some d) (some d') = derivation_eq d d'
some_derivation_eq _ _ = false

unfoldable pub key_spec_eq : KeySpec → KeySpec → Bool
key_spec_eq secp256k1 secp256k1 = true
key_spec_eq ed25519 ed25519 = true
key_spec_eq _ _ = false

pub record KeyRef : Type 0 where
  pub backend : ℕ
  pub backend_instance : ℕ
  pub locator : ℕ
  pub key_spec : KeySpec
  pub public_key_fingerprint : List ℕ
  pub derivation : Option DerivationRef

unfoldable pub key_ref_eq : KeyRef → KeyRef → Bool
key_ref_eq a b =
    a.backend == b.backend
    && a.backend_instance == b.backend_instance
    && a.locator == b.locator
    && key_spec_eq a.key_spec b.key_spec
    && bytes_eq a.public_key_fingerprint b.public_key_fingerprint
    && some_derivation_eq a.derivation b.derivation

pub record UnsignedSignRequest : Type 0 where
  pub schema : List ℕ
  pub attempt_id : ℕ
  pub operation_id : ℕ
  pub operation_digest : ℕ
  pub attempt_digest : ℕ
  pub audience : List ℕ
  pub issuer_service_id : List ℕ
  pub issuer_boot_epoch : ℕ
  pub broker_signing_key_id : ℕ
  pub approval_id : ℕ
  pub wallet_id : ℕ
  pub key_ref : KeyRef
  pub crypto_suite : CryptoSuite
  pub selector_kind : SelectorKind
  pub ordered_payload_digests : List ℕ
  pub ordered_hashes : List ℕ
  pub ordered_messages : List (List ℕ)
  pub signature_count : ℕ
  pub petal_use_claim_digest : Option ℕ
  pub claim_assurance_digest : Option ℕ
  pub policy_version : ℕ
  pub policy_digest : ℕ
  pub validation_receipt_digest : ℕ
  pub issued_at_ms : ℕ
  pub not_before_ms : ℕ
  pub expires_at_ms : ℕ

pub record SignRequest : Type 0 where
  pub unsigned : UnsignedSignRequest
  pub broker_signature : List ℕ

pub record SignOperationIdentity : Type 0 where
  pub operation_id : ℕ
  pub approval_id : ℕ
  pub key_ref : KeyRef
  pub crypto_suite : CryptoSuite
  pub ordered_payload_digests : List ℕ
  pub ordered_hashes : List ℕ
  pub petal_use_claim_digest : Option ℕ
  pub claim_assurance_digest : Option ℕ
  pub policy_version : ℕ
  pub policy_digest : ℕ

unfoldable pub operation_identity : UnsignedSignRequest → SignOperationIdentity
operation_identity u = record {
  operation_id = u.operation_id;
  approval_id = u.approval_id;
  key_ref = u.key_ref;
  crypto_suite = u.crypto_suite;
  ordered_payload_digests = u.ordered_payload_digests;
  ordered_hashes = u.ordered_hashes;
  petal_use_claim_digest = u.petal_use_claim_digest;
  claim_assurance_digest = u.claim_assurance_digest;
  policy_version = u.policy_version;
  policy_digest = u.policy_digest;
}

-- The hashes of the program: SHA-256, and SHA-256 of a domain and a canonical JSON text.
pub record Hashes : Type 0 where
  pub sha256 : List ℕ → ℕ
  pub operation_digest : SignOperationIdentity → Result ℕ
  pub attempt_jcs_digest : UnsignedSignRequest → Result ℕ
  pub retry_jcs_digest : UnsignedSignRequest → Result ℕ

-- `computed_attempt_digest`: of all fields but the digest itself.
unfoldable pub computed_attempt_digest : Hashes → UnsignedSignRequest → Result ℕ
computed_attempt_digest hashes u = hashes.attempt_jcs_digest (record u { attempt_digest = 0 })

abbrev pub max_ed25519_message_bytes : ℕ
max_ed25519_message_bytes = 1232

-- Every message, with the hash and the payload digest in its place. The shortest list ends it.
unfoldable pub all_messages_bound : Hashes → List (List ℕ) → List ℕ → List ℕ → Bool
all_messages_bound hashes (m ∷ ms) (h ∷ hs) (p ∷ ps) =
    not (length m == 0)
    && leb (length m) max_ed25519_message_bytes
    && hashes.sha256 m == h
    && hashes.sha256 m == p
    && all_messages_bound hashes ms hs ps
all_messages_bound hashes _ _ _ = true

unfoldable pub messages_are_bound : Hashes → CryptoSuite → UnsignedSignRequest → Bool
messages_are_bound hashes ed25519_message u =
    length u.ordered_messages == length u.ordered_hashes
    && length u.ordered_payload_digests == length u.ordered_hashes
    && all_messages_bound hashes u.ordered_messages u.ordered_hashes u.ordered_payload_digests
messages_are_bound hashes secp256k1_keccak256_recoverable u = length u.ordered_messages == 0
messages_are_bound hashes secp256k1_sha256_recoverable u = length u.ordered_messages == 0

-- `validate_shape`
unfoldable pub validate_shape : Hashes → SignRequest → Result (Unit {0})
validate_shape hashes request =
    let u = request.unsigned in
    reject_if
      (not (bytes_eq u.schema (codes "bloom.sign-request/1"))
        || not (bytes_eq u.audience (codes "bloom-signer"))
        || leb u.expires_at_ms u.not_before_ms
        || ltb u.expires_at_ms u.issued_at_ms
        || ltb 30000 (u.expires_at_ms - u.issued_at_ms)
        || not (u.signature_count == length u.ordered_hashes)
        || not (messages_are_bound hashes u.crypto_suite u))
      malformed_frame
    >> (hashes.operation_digest (operation_identity u) >>= λ operation.
        computed_attempt_digest hashes u >>= λ attempt.
        reject_if (not (u.operation_digest == operation) || not (u.attempt_digest == attempt))
          operation_id_conflict)

-- `retry_binding_digest`: of all fields but the six that a retry may change.
unfoldable pub retry_binding_digest : Hashes → UnsignedSignRequest → Result ℕ
retry_binding_digest hashes u = hashes.retry_jcs_digest (record u {
  attempt_id = 0;
  attempt_digest = 0;
  issuer_boot_epoch = 0;
  issued_at_ms = 0;
  not_before_ms = 0;
  expires_at_ms = 0;
})
