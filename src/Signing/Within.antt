-- ===== src/Signing/Within.antt =====
-- What the check of a request against its approval means: the fields of the request and of the terms that
-- `validate_against_approval` (crates/bloom-signer/src/engine.rs) compares.
use bloom_signer.Prelude.{
  ℕ, ◌≤◌, ◌<◌, Bool, true, false, not, List, [], ◌∷◌, Option, none, some, ◌≡◌, refl, sym, inl, inr,
  arith, length, any, Any, bytes_eq→eq, Bool-cases,
}
use bloom_signer.Prelude.Result.{Result, ok, ProtocolErrorCode, reject_if, ◌>>◌}
use bloom_signer.Registry.Path.{Profile, profile_eq, KeySpec}
use bloom_signer.Signing.Request.{
  SelectorKind, exact, petal, CryptoSuite, suite_eq, DerivationRef, bip32_secp256k1,
  bip39_multicurve, derivation_eq, some_derivation_eq, key_spec_eq, KeyRef, key_ref_eq,
  UnsignedSignRequest,
}
use bloom_signer.Signing.Terms.{
  ApprovalSelector, exact_selector, petal_selector, SealedApprovalTerms,
}
use bloom_signer.Signing.Checks.{is_some, selector_matches, validate_against_approval}

reject-ok :
    (b : Bool) (e : ProtocolErrorCode) (k : Result (Unit {0}))
    → (reject_if b e >> k) ≡ ok tt
    → (b ≡ false) × (k ≡ ok tt)
reject-ok true e k h = ground arith
reject-ok false e k h = (refl, h)

reject-last : (b : Bool) (e : ProtocolErrorCode) → reject_if b e ≡ ok tt → b ≡ false
reject-last true e h = ground arith
reject-last false e h = refl

not-false : (b : Bool) → not b ≡ false → b ≡ true
not-false b h = ground arith

pub suite_eq→eq : (a b : CryptoSuite) → suite_eq a b ≡ true → a ≡ b
unfolding suite_eq
suite_eq→eq a b h = ground arith

profile_eq→eq : (a b : Profile) → profile_eq a b ≡ true → a ≡ b
unfolding profile_eq
profile_eq→eq a b h = ground arith

key_spec_eq→eq : (a b : KeySpec) → key_spec_eq a b ≡ true → a ≡ b
unfolding key_spec_eq
key_spec_eq→eq a b h = ground arith

derivation_eq→eq : (a b : Option DerivationRef) → some_derivation_eq a b ≡ true → a ≡ b
unfolding some_derivation_eq derivation_eq
derivation_eq→eq none none h = refl
derivation_eq→eq none (some b) h = ground arith
derivation_eq→eq (some a) none h = ground arith
derivation_eq→eq (some (bip32_secp256k1 k p)) (some (bip32_secp256k1 k' p')) h = ground arith
derivation_eq→eq (some (bip32_secp256k1 k p)) (some (bip39_multicurve w f q)) h = ground arith
derivation_eq→eq (some (bip39_multicurve w f q)) (some (bip32_secp256k1 k p)) h = ground arith
derivation_eq→eq (some (bip39_multicurve w f p)) (some (bip39_multicurve w' f' p')) h =
    ground (arith, profile_eq→eq f f')

key_ref_eq→eq : (a b : KeyRef) → key_ref_eq a b ≡ true → a ≡ b
unfolding key_ref_eq
key_ref_eq→eq a b h = ground (
  arith,
  key_spec_eq→eq a.key_spec b.key_spec,
  bytes_eq→eq a.public_key_fingerprint b.public_key_fingerprint,
  derivation_eq→eq a.derivation b.derivation,
)

pub allowed→Any :
    (suite : CryptoSuite) (suites : List CryptoSuite)
    → any (λ s. suite_eq s suite) suites ≡ true
    → Any (λ s. s ≡ suite) suites
unfolding any
allowed→Any suite [] h = ground arith
allowed→Any suite (s ∷ suites) h = elim (Bool-cases (suite_eq s suite)) [
  | inl e ↦ inl (suite_eq→eq s suite e)
  | inr e ↦ inr (allowed→Any suite suites (rw e at h))
]

-- What a selector asks of a request: the exact lists, or the two digests of a Petal claim.
pub data IsSelected (u : UnsignedSignRequest) : ApprovalSelector → Type 0 where
  exactly :
      {payload_digests hashes : List ℕ}
      → u.selector_kind ≡ exact
      → u.ordered_payload_digests ≡ payload_digests
      → u.ordered_hashes ≡ hashes
      → u.signature_count ≡ length hashes
      → IsSelected u (exact_selector payload_digests hashes)
  by_claim :
      {package_hash route : ℕ} {classes : List ℕ} {grants : List _} {assurance : ℕ}
      (claim assurance_digest : ℕ)
      → u.selector_kind ≡ petal
      → u.petal_use_claim_digest ≡ some claim
      → u.claim_assurance_digest ≡ some assurance_digest
      → IsSelected u (petal_selector package_hash route classes grants assurance)

-- The terms of an approval admit a request at a time.
pub record IsWithinTerms (u : UnsignedSignRequest) (terms : SealedApprovalTerms) (now : ℕ)
    : Type 0 where
  pub begun : terms.not_before_ms ≤ now
  pub not_ended : now < terms.expires_at_ms
  pub begins_within : terms.not_before_ms ≤ u.not_before_ms
  pub ends_within : u.expires_at_ms ≤ terms.expires_at_ms
  pub wallet : u.wallet_id ≡ terms.wallet_id
  pub key : u.key_ref ≡ terms.key_ref
  pub suite : Any (λ s. s ≡ u.crypto_suite) terms.allowed_crypto_suites
  pub version : u.policy_version ≡ terms.policy_version
  pub policy : u.policy_digest ≡ terms.policy_digest
  pub paired : length u.ordered_payload_digests ≡ length u.ordered_hashes
  pub selected : IsSelected u terms.selector

some-of : (o : Option ℕ) → is_some o ≡ true → (a : ℕ) × (o ≡ some a)
unfolding is_some
some-of none h = ground arith
some-of (some a) h = (a, refl)

selector-IsSelected :
    (selector : ApprovalSelector) (u : UnsignedSignRequest) (kind : SelectorKind)
    → u.selector_kind ≡ kind
    → selector_matches selector kind u ≡ true
    → IsSelected u selector
unfolding selector_matches
selector-IsSelected (exact_selector payloads hashes) u exact k h =
    exactly k (sym (bytes_eq→eq payloads u.ordered_payload_digests (ground arith)))
      (sym (bytes_eq→eq hashes u.ordered_hashes (ground arith))) (ground arith)
selector-IsSelected (exact_selector payloads hashes) u petal k h = ground arith
selector-IsSelected (petal_selector p r c g a) u exact k h = ground arith
selector-IsSelected (petal_selector p r c g a) u petal k h =
    let claim = some-of u.petal_use_claim_digest (ground arith) in
    let assurance = some-of u.claim_assurance_digest (ground arith) in
    by_claim claim.0 assurance.0 k claim.1 assurance.1

pub validate_against_approval-IsWithinTerms :
    (u : UnsignedSignRequest) (terms : SealedApprovalTerms) (now : ℕ)
    → validate_against_approval u terms now ≡ ok tt
    → IsWithinTerms u terms now
unfolding validate_against_approval
validate_against_approval-IsWithinTerms u terms now h = record {
  begun = ground arith;
  not_ended = ground arith;
  begins_within = ground arith;
  ends_within = ground arith;
  wallet = ground arith;
  key = key_ref_eq→eq u.key_ref terms.key_ref (ground arith);
  suite = allowed→Any u.crypto_suite terms.allowed_crypto_suites (ground arith);
  version = ground arith;
  policy = ground arith;
  paired = ground arith;
  selected = selector-IsSelected terms.selector u u.selector_kind refl (ground arith);
}
