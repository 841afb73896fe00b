-- ===== src/Signing/Petal.antt =====
-- `validate_petal_key_approval` of crates/bloom-signer/src/engine.rs: the approval of a key that a
-- Petal owns stays within the scope of the key.
use bloom_signer.Prelude.{
  ℕ, ◌-◌, Bool, true, false, ◌&&◌, ◌||◌, not, List, [], ◌∷◌, Option, none, some, ◌==◌, ltb, leb,
  if◌then◌else◌, any, find?,
}
use bloom_signer.Prelude.Result.{
  Result, ok, err, reject_if, ok_or, ◌>>=◌, ◌>>◌, service_unavailable, malformed_frame,
  keyref_mismatch, selector_mismatch, suite_not_allowed, approval_expired,
}
use bloom_signer.Signing.Request.{CryptoSuite, suite_eq}
use bloom_signer.Signing.Terms.{
  ApprovalSubject, petal_subject, cli_subject, system_subject, PetalRouteGrant, ApprovalSelector,
  exact_selector, petal_selector, SealedApprovalTerms, PetalKeyScope,
}
use bloom_signer.Signing.State.{Tables, PetalScopeRow, is_key, is_scope}
use bloom_signer.Signing.Checks.{is_enrolled_petal}

unfoldable pub contains : List ℕ → ℕ → Bool
contains rows value = any (λ row. row == value) rows

unfoldable pub allows_suite : List CryptoSuite → CryptoSuite → Bool
allows_suite rows value = any (λ row. suite_eq row value) rows

unfoldable pub is_empty {ℓ} : {A : Type ℓ} → List A → Bool
is_empty [] = true
is_empty (_ ∷ _) = false

unfoldable pub differs_from : Option ℕ → ℕ → Bool
differs_from none value = false
differs_from (some given) value = not (given == value)

-- A list of operation classes is empty or goes beyond the scope.
unfoldable pub exceeds_classes : PetalKeyScope → List ℕ → Bool
exceeds_classes scope classes =
    is_empty classes
    || any (λ operation_class. not (contains scope.allowed_operation_classes operation_class))
        classes

unfoldable pub grant_exceeds : PetalKeyScope → PetalRouteGrant → Bool
grant_exceeds scope grant =
    not (contains scope.allowed_routes grant.route)
    || exceeds_classes scope grant.allowed_operation_classes

unfoldable pub check_selector : PetalKeyScope → ℕ → ℕ → ApprovalSelector → Result (Unit {0})
check_selector scope hash route (exact_selector _ _) = ok tt
check_selector scope hash route (petal_selector selector_package selector_route classes grants _) =
    reject_if (not (selector_package == hash) || not (selector_route == route)) selector_mismatch
    >> reject_if (exceeds_classes scope classes) selector_mismatch
    >> reject_if (any (grant_exceeds scope) grants) selector_mismatch

unfoldable pub check_subject :
    PetalKeyScope → ApprovalSelector → ApprovalSubject → Result (Unit {0})
check_subject scope selector (petal_subject hash route agent) =
    reject_if
      (not (hash == scope.package_hash)
        || not (contains scope.allowed_routes route)
        || differs_from agent scope.key_slot)
      selector_mismatch
    >> check_selector scope hash route selector
check_subject scope selector (cli_subject _ _) = err selector_mismatch
check_subject scope selector (system_subject _ _) = err selector_mismatch

-- Only an exact selector is free of the scope's expiry.
unfoldable pub scope_bound : ApprovalSelector → Bool
scope_bound (exact_selector _ _) = false
scope_bound (petal_selector _ _ _ _ _) = true

unfoldable pub check_scope :
    PetalKeyScope → (created expires : ℕ) → SealedApprovalTerms → ℕ → Result (Unit {0})
check_scope scope created expires terms now =
    reject_if (not (terms.wallet_id == scope.wallet_id)) keyref_mismatch
    >> check_subject scope terms.selector terms.subject
    >> reject_if
        (is_empty terms.allowed_crypto_suites
          || any (λ suite. not (allows_suite scope.allowed_crypto_suites suite))
              terms.allowed_crypto_suites)
        suite_not_allowed
    >> reject_if
        (ltb now created
          || ltb terms.not_before_ms created
          || (scope_bound terms.selector && (leb expires now || ltb expires terms.expires_at_ms))
          || ltb scope.maximum_lifetime_ms (terms.expires_at_ms - terms.not_before_ms))
        approval_expired

unfoldable pub check_scope_row : SealedApprovalTerms → ℕ → Option PetalScopeRow → Result (Unit {0})
check_scope_row terms now stored = ok_or stored service_unavailable >>= λ row.
    ok_or row.scope malformed_frame >>= λ scope.
    check_scope scope row.created_at_ms row.expires_at_ms terms now

-- `validate_petal_key_approval`
unfoldable pub validate_petal_key_approval : Tables → SealedApprovalTerms → ℕ → Result (Unit {0})
validate_petal_key_approval t terms now =
    let fingerprint = terms.key_ref.public_key_fingerprint in
    if is_enrolled_petal (find? (is_key fingerprint) t.enrolled_keys)
    then check_scope_row terms now (find? (is_scope fingerprint) t.petal_key_scopes)
    else ok tt
