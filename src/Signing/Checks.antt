-- ===== src/Signing/Checks.antt =====
-- The checks of a sign request against its approval, in crates/bloom-signer/src/engine.rs:
-- `verify_broker_signature`, `validate_against_approval`, `require_key_available` and
-- `wallet_epoch`.
use bloom_signer.Prelude.{
  ℕ, Bool, true, false, ◌&&◌, ◌||◌, not, List, Option, none, some, ◌==◌, ltb, leb, if◌then◌else◌,
  bytes_eq, length, any, find?,
}
use bloom_signer.Prelude.Result.{
  Result, ok, err, reject_if, ok_or, ◌>>=◌, ◌>>◌, unauthenticated_peer, malformed_frame,
  approval_expired, keyref_mismatch, suite_not_allowed, policy_baseline_stale, selector_mismatch,
}
use bloom_signer.Registry.Types.{Allocation, activated, state_eq}
use bloom_signer.Registry.Path.{codes}
use bloom_signer.Signing.Request.{
  SelectorKind, exact, petal, suite_eq, DerivationRef, bip32_secp256k1, bip39_multicurve, KeyRef,
  key_ref_eq, UnsignedSignRequest, SignRequest,
}
use bloom_signer.Signing.Terms.{
  ApprovalSelector, exact_selector, petal_selector, SealedApprovalTerms,
}
use bloom_signer.Signing.State.{
  EnrolledKey, is_petal_class, Tables, Deps, is_key, is_wallet, WalletState,
}

-- `verify_broker_signature`
unfoldable pub verify_broker_signature : Deps → SignRequest → Result (Unit {0})
verify_broker_signature deps request =
    let u = request.unsigned in
    reject_if
      (not (bytes_eq u.issuer_service_id (codes "bloom-broker"))
        || not (u.broker_signing_key_id == deps.broker_key_id))
      unauthenticated_peer
    >> reject_if (not (length request.broker_signature == 64)) unauthenticated_peer
    >> (ok_or (deps.hex_decode u.attempt_digest) malformed_frame >>= λ digest.
        reject_if (not (deps.broker_verify digest request.broker_signature)) unauthenticated_peer)

unfoldable pub is_some : Option ℕ → Bool
is_some none = false
is_some (some _) = true

-- The arms of the match on the selector of the terms and the kind of the request.
unfoldable pub selector_matches : ApprovalSelector → SelectorKind → UnsignedSignRequest → Bool
selector_matches (exact_selector payload_digests hashes) exact u =
    bytes_eq payload_digests u.ordered_payload_digests
    && bytes_eq hashes u.ordered_hashes
    && u.signature_count == length hashes
selector_matches (petal_selector _ _ _ _ _) petal u =
    is_some u.petal_use_claim_digest && is_some u.claim_assurance_digest
selector_matches _ _ u = false

-- `validate_against_approval`
unfoldable pub validate_against_approval :
    UnsignedSignRequest → SealedApprovalTerms → ℕ → Result (Unit {0})
validate_against_approval u terms now =
    reject_if
      (leb terms.expires_at_ms now
        || ltb now terms.not_before_ms
        || ltb u.not_before_ms terms.not_before_ms
        || ltb terms.expires_at_ms u.expires_at_ms)
      approval_expired
    >> reject_if (not (u.wallet_id == terms.wallet_id) || not (key_ref_eq u.key_ref terms.key_ref))
        keyref_mismatch
    >> reject_if (not (any (λ suite. suite_eq suite u.crypto_suite) terms.allowed_crypto_suites))
        suite_not_allowed
    >> reject_if
        (not (u.policy_version == terms.policy_version)
          || not (u.policy_digest == terms.policy_digest))
        policy_baseline_stale
    >> reject_if (not (length u.ordered_payload_digests == length u.ordered_hashes))
        selector_mismatch
    >> reject_if (not (selector_matches terms.selector u.selector_kind u)) selector_mismatch

-- The stored text of the enrolled key is this text.
unfoldable pub enrolled_as : Option EnrolledKey → List ℕ → Bool
enrolled_as none text = false
enrolled_as (some row) text = bytes_eq row.key_ref_jcs text

unfoldable pub is_enrolled_petal : Option EnrolledKey → Bool
is_enrolled_petal none = false
is_enrolled_petal (some row) = is_petal_class row.authority_class

unfoldable pub has_fingerprint : Option (List ℕ) → List ℕ → Bool
has_fingerprint none fingerprint = false
has_fingerprint (some stored) fingerprint = bytes_eq stored fingerprint

unfoldable pub is_derived_account : ℕ → List ℕ → Allocation → Bool
is_derived_account wallet fingerprint row =
    row.wallet_id == wallet && has_fingerprint row.public_key_fingerprint fingerprint

unfoldable pub is_activated : Option Allocation → Bool
is_activated none = false
is_activated (some row) = state_eq row.state activated

-- A BIP-39 child of a wallet's seed must be ACTIVATED in the registry.
unfoldable pub check_derived_account : Tables → KeyRef → Option DerivationRef → Result (Unit {0})
check_derived_account t key_ref (some (bip39_multicurve seed _ _)) =
    reject_if
      (not (
        is_activated (
          find? (is_derived_account seed key_ref.public_key_fingerprint) t.derivation_allocations)))
      keyref_mismatch
check_derived_account t key_ref (some (bip32_secp256k1 _ _)) = ok tt
check_derived_account t key_ref none = ok tt

unfoldable pub check_enrolled : Deps → KeyRef → Option EnrolledKey → Result (Unit {0})
check_enrolled deps key_ref enrolled = ok_or (deps.key_ref_jcs key_ref) malformed_frame >>= λ text.
    if enrolled_as enrolled text
    then (deps.key_is_available key_ref >>= λ available. reject_if (not available) keyref_mismatch)
    else err keyref_mismatch

-- `require_key_available`
unfoldable pub require_key_available : Deps → Tables → KeyRef → Result (Unit {0})
require_key_available deps t key_ref =
    let enrolled = find? (is_key key_ref.public_key_fingerprint) t.enrolled_keys in
    check_enrolled deps key_ref enrolled
    >> (if is_enrolled_petal enrolled
        then ok tt
        else check_derived_account t key_ref key_ref.derivation)

unfoldable pub epoch_of : Option WalletState → ℕ
epoch_of none = 0
epoch_of (some row) = row.revocation_epoch

-- `wallet_epoch`: 0 for a wallet without a row.
unfoldable pub wallet_epoch : Tables → ℕ → ℕ
wallet_epoch t wallet = epoch_of (find? (is_wallet wallet) t.wallet_states)
