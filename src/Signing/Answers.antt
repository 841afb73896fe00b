-- ===== src/Signing/Answers.antt =====
-- The answers of `revoke_approval` and `revoke_all` of crates/bloom-signer/src/engine.rs.
use bloom_signer.Prelude.{ℕ, List, Option, ◌≡◌, refl, subst, Bool-cases, inl, inr}
use bloom_signer.Prelude.Result.{Result, ok, err, panic}
use bloom_signer.Prelude.Tx.{Post-ok}
use bloom_signer.Signing.Revocation.{
  ApprovalTombstone, RevocationState, approval_request, wallet_request,
}
use bloom_signer.Signing.State.{SignAudit, Tables, Engine, Deps}
use bloom_signer.Signing.Revoke.{
  revoke_body, revoke_after, revoke_approval, revoke_all_body, revoke_all_after, revoke_all,
  bad_reason,
}
use bloom_signer.Signing.Mutation.{mutation-cases}
use bloom_signer.Signing.Revoked.{
  Revocation, revoke_body-Revocation, WalletRevocation, revoke_all_body-WalletRevocation,
}

-- A revocation has run: the tables before the audit entry, and what it did.
pub record Ran (Did : ℕ → Tables → Type 0) (request : Result ℕ) (s' : Engine) : Type 0 where
  pub digest : ℕ
  pub digested : request ≡ ok digest
  pub tables : Tables
  pub audit : List SignAudit
  pub did : Did digest tables
  pub final : s'.tables ≡ record tables { audit = audit }

module _ (deps : Deps) (approval : ℕ) (reason : List ℕ) (operation now : ℕ) (s : Engine) where
  abbrev IfRevoked : Result ApprovalTombstone → Engine → Type 0
  IfRevoked (ok r) s' =
      Ran (λ digest t. Revocation approval operation digest s.tables r t)
        (deps.request_digest (approval_request approval reason operation now)) s'
  IfRevoked (err _) s' = Unit {0}
  IfRevoked panic s' = Unit {0}

  inside :
      (digest : ℕ)
      → deps.request_digest (approval_request approval reason operation now) ≡ ok digest
      → (r : ApprovalTombstone) (event : Option SignAudit) (t : Tables) (audit : List SignAudit)
        (s1 : Engine)
      → revoke_body deps approval reason operation now digest s.tables ≡ ok ((r, event), t)
      → s1.tables ≡ record t { audit = audit }
      → IfRevoked (ok r) s1
  inside digest d r event t audit s1 b k = record {
    digest = digest;
    digested = d;
    tables = t;
    audit = audit;
    did = Post-ok (revoke_body-Revocation deps approval reason operation now digest s.tables) b;
    final = k;
  }

  after :
      (r : Result ℕ)
      → deps.request_digest (approval_request approval reason operation now) ≡ r
      → IfRevoked
          (revoke_after deps approval reason operation now r s).0
          (revoke_after deps approval reason operation now r s).1
  unfolding revoke_after
  after (ok digest) d =
      mutation-cases IfRevoked deps (revoke_body deps approval reason operation now digest) s
        (λ e s1 k. tt) tt (inside digest d)
  after (err _) d = tt
  after panic d = tt

  all_cases :
      IfRevoked
        (revoke_approval deps approval reason operation now s).0
        (revoke_approval deps approval reason operation now s).1
  unfolding revoke_approval
  all_cases = elim (Bool-cases (bad_reason reason)) [
    | inl u ↦ rw u tt
    | inr u ↦ rw u (after _ refl)
  ]

  pub revoke_approval-Revocation :
      (s' : Engine) (r : ApprovalTombstone)
      → revoke_approval deps approval reason operation now s ≡ (ok r, s')
      → Ran
          (λ digest t. Revocation approval operation digest s.tables r t)
          (deps.request_digest (approval_request approval reason operation now))
          s'
  revoke_approval-Revocation s' r e = subst (λ p. IfRevoked p.0 p.1) e all_cases

module _ (deps : Deps) (wallet operation now : ℕ) (s : Engine) where
  abbrev IfAllRevoked : Result RevocationState → Engine → Type 0
  IfAllRevoked (ok r) s' =
      Ran (λ digest t. WalletRevocation wallet operation digest s.tables r t)
        (deps.request_digest (wallet_request wallet operation now)) s'
  IfAllRevoked (err _) s' = Unit {0}
  IfAllRevoked panic s' = Unit {0}

  all_inside :
      (digest : ℕ)
      → deps.request_digest (wallet_request wallet operation now) ≡ ok digest
      → (r : RevocationState) (event : Option SignAudit) (t : Tables) (audit : List SignAudit)
        (s1 : Engine)
      → revoke_all_body deps wallet operation now digest s.tables ≡ ok ((r, event), t)
      → s1.tables ≡ record t { audit = audit }
      → IfAllRevoked (ok r) s1
  all_inside digest d r event t audit s1 b k = record {
    digest = digest;
    digested = d;
    tables = t;
    audit = audit;
    did = Post-ok (revoke_all_body-WalletRevocation deps wallet operation now digest s.tables) b;
    final = k;
  }

  all_after :
      (r : Result ℕ)
      → deps.request_digest (wallet_request wallet operation now) ≡ r
      → IfAllRevoked
          (revoke_all_after deps wallet operation now r s).0
          (revoke_all_after deps wallet operation now r s).1
  unfolding revoke_all_after
  all_after (ok digest) d =
      mutation-cases IfAllRevoked deps (revoke_all_body deps wallet operation now digest) s
        (λ e s1 k. tt) tt (all_inside digest d)
  all_after (err _) d = tt
  all_after panic d = tt

  pub revoke_all-WalletRevocation :
      (s' : Engine) (r : RevocationState)
      → revoke_all deps wallet operation now s ≡ (ok r, s')
      → Ran
          (λ digest t. WalletRevocation wallet operation digest s.tables r t)
          (deps.request_digest (wallet_request wallet operation now))
          s'
  unfolding revoke_all
  revoke_all-WalletRevocation s' r e = subst (λ p. IfAllRevoked p.0 p.1) e (all_after _ refl)
