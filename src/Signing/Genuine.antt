-- ===== src/Signing/Genuine.antt =====
-- What the checks of a request by itself mean: `validate_shape`
-- (crates/bloom-signer-api/src/signing.rs), `verify_broker_signature` and the request's window
-- (crates/bloom-signer/src/engine.rs).
use bloom_signer.Prelude.{
  ℕ, ◌+◌, ◌≤◌, ◌<◌, true, List, [], ◌∷◌, some, ◌≡◌, inl, inr, arith, length, bytes_eq→eq,
  Option-cases,
}
use bloom_signer.Prelude.Result.{ok}
use bloom_signer.Registry.Path.{codes}
use bloom_signer.Signing.Request.{
  CryptoSuite, UnsignedSignRequest, SignRequest, operation_identity, computed_attempt_digest,
  messages_are_bound, Hashes, all_messages_bound, secp256k1_keccak256_recoverable,
  secp256k1_sha256_recoverable, ed25519_message, validate_shape,
}
use bloom_signer.Signing.State.{Deps}
use bloom_signer.Signing.Authorize.{check_request}
use bloom_signer.Signing.Checks.{verify_broker_signature}

-- Each message is a text of at most 1232 bytes whose SHA-256 digest is the hash and the payload digest
-- in its place.
abbrev pub AllBound : Hashes → List (List ℕ) → List ℕ → List ℕ → Type 0
AllBound hashes [] hs ps = Unit
AllBound hashes (m ∷ ms) [] ps = Unit
AllBound hashes (m ∷ ms) (h ∷ hs) [] = Unit
AllBound hashes (m ∷ ms) (h ∷ hs) (p ∷ ps) =
    (0 < length m)
    × (length m ≤ 1232)
    × (hashes.sha256 m ≡ h)
    × (hashes.sha256 m ≡ p)
    × AllBound hashes ms hs ps

-- A suite that signs digests takes no message, Ed25519 one for each hash.
abbrev pub IsBound : Hashes → CryptoSuite → UnsignedSignRequest → Type 0
IsBound hashes secp256k1_keccak256_recoverable u = length u.ordered_messages ≡ 0
IsBound hashes secp256k1_sha256_recoverable u = length u.ordered_messages ≡ 0
IsBound hashes ed25519_message u =
    (length u.ordered_messages ≡ length u.ordered_hashes)
    × (length u.ordered_payload_digests ≡ length u.ordered_hashes)
    × AllBound hashes u.ordered_messages u.ordered_hashes u.ordered_payload_digests

all_messages_bound-AllBound :
    (hashes : Hashes) (ms : List (List ℕ)) (hs ps : List ℕ)
    → all_messages_bound hashes ms hs ps ≡ true
    → AllBound hashes ms hs ps
unfolding all_messages_bound
all_messages_bound-AllBound hashes [] hs ps k = tt
all_messages_bound-AllBound hashes (m ∷ ms) [] ps k = tt
all_messages_bound-AllBound hashes (m ∷ ms) (h ∷ hs) [] k = tt
all_messages_bound-AllBound hashes (m ∷ ms) (h ∷ hs) (p ∷ ps) k = (
  ground arith,
  ground arith,
  ground arith,
  ground arith,
  all_messages_bound-AllBound hashes ms hs ps (ground arith),
)

messages_are_bound-IsBound :
    (hashes : Hashes) (suite : CryptoSuite) (u : UnsignedSignRequest)
    → messages_are_bound hashes suite u ≡ true
    → IsBound hashes suite u
unfolding messages_are_bound
messages_are_bound-IsBound hashes secp256k1_keccak256_recoverable u k = ground arith
messages_are_bound-IsBound hashes secp256k1_sha256_recoverable u k = ground arith
messages_are_bound-IsBound hashes ed25519_message u k = (
  ground arith,
  ground arith,
  all_messages_bound-AllBound hashes u.ordered_messages u.ordered_hashes u.ordered_payload_digests
      (ground arith),
)

-- The shape of a request, with its window at a time and the broker's signature.
pub record IsGenuine (deps : Deps) (request : SignRequest) (now : ℕ) : Type 0 where
  pub schema : request.unsigned.schema ≡ codes "bloom.sign-request/1"
  pub audience : request.unsigned.audience ≡ codes "bloom-signer"
  pub short : request.unsigned.expires_at_ms ≤ request.unsigned.issued_at_ms + 30000
  pub begun : request.unsigned.not_before_ms ≤ now
  pub not_ended : now < request.unsigned.expires_at_ms
  pub counted : request.unsigned.signature_count ≡ length request.unsigned.ordered_hashes
  pub messages :
      messages_are_bound deps.hashes request.unsigned.crypto_suite request.unsigned ≡ true
  pub bound : IsBound deps.hashes request.unsigned.crypto_suite request.unsigned
  pub operation :
      deps.hashes.operation_digest (operation_identity request.unsigned)
      ≡ ok request.unsigned.operation_digest
  pub attempt :
      computed_attempt_digest deps.hashes request.unsigned ≡ ok request.unsigned.attempt_digest
  pub issuer : request.unsigned.issuer_service_id ≡ codes "bloom-broker"
  pub signing_key : request.unsigned.broker_signing_key_id ≡ deps.broker_key_id
  pub long : length request.broker_signature ≡ 64
  pub signed :
      (digest : List ℕ) × (deps.hex_decode request.unsigned.attempt_digest ≡ some digest)
      × (deps.broker_verify digest request.broker_signature ≡ true)

pub check_request-IsGenuine :
    (deps : Deps) (request : SignRequest) (now : ℕ)
    → check_request deps request now ≡ ok tt
    → IsGenuine deps request now
unfolding check_request validate_shape verify_broker_signature
check_request-IsGenuine deps request now h =
    let u = request.unsigned in
    record {
      schema = bytes_eq→eq u.schema (codes "bloom.sign-request/1") (ground arith);
      audience = bytes_eq→eq u.audience (codes "bloom-signer") (ground arith);
      short = ground arith;
      begun = ground arith;
      not_ended = ground arith;
      counted = ground arith;
      messages = ground arith;
      bound = messages_are_bound-IsBound deps.hashes u.crypto_suite u (ground arith);
      operation = ground arith;
      attempt = ground arith;
      issuer = bytes_eq→eq u.issuer_service_id (codes "bloom-broker") (ground arith);
      signing_key = ground arith;
      long = ground arith;
      signed = elim (Option-cases (deps.hex_decode u.attempt_digest)) [
        | inl e ↦ absurd (ground arith)
        | inr w ↦ (w.0, w.1, let e = w.1 in ground arith)
      ];
    }
