-- ===== src/Signing/Respects.antt =====
-- What every call of the signing part of crates/bloom-signer/src/engine.rs respects, from what the
-- calls have done.
use bloom_signer.Prelude.{ℕ, Bool, List, ◌≡◌, refl}
use bloom_signer.Prelude.Result.{Result}
use bloom_signer.Prelude.Tx.{Post, Post-mono, Post-both}
use bloom_signer.Signing.Revocation.{ApprovalTombstone, RevocationState}
use bloom_signer.Signing.State.{
  released_effect, quarantined_effect, SignAudit, PlatformTimeReading, Tables, Engine, Deps,
  ClockDecision,
}
use bloom_signer.Signing.Authorized.{authorize_body-Post}
use bloom_signer.Signing.Changes.{Change, keep}
use bloom_signer.Signing.Counted.{IsConsistent, Change-IsConsistent}
use bloom_signer.Signing.Steps.{
  dispatch-Change, result-Change, release-Change, quarantine-Change, finalize-Change,
  Authorized-Change,
}
use bloom_signer.Signing.Rest.{Rest}
use bloom_signer.Signing.Untouched.{dispatch-KeepsRest, result-KeepsRest, finalize-KeepsRest}
use bloom_signer.Signing.Revoked.{
  Revocation, revoke_body-Revocation, WalletRevocation, revoke_all_body-WalletRevocation,
}
use bloom_signer.Signing.Observed.{
  Observed, observe_body-Observed, observe_body-ClockOnly, Repaired, repair_body-Repaired,
  repair_body-ClockOnly,
}
use bloom_signer.Signing.Calls.{Call, Keeps, run, run-preserves}
use bloom_signer.Signing.History.{audit-Change, Revocation-Change, WalletRevocation-Change}

-- A property that the calls respect, the signing calls by their change of operations and approvals.
pub record Respects (deps : Deps) (P : Tables → Type 0) : Type 0 where
  pub ignores_audit : (t : Tables) (audit : List SignAudit) → P t → P (record t { audit = audit })
  pub signs : (t t' : Tables) → Change t t' → Rest t t' → P t → P t'
  pub revokes :
      (approval operation digest : ℕ) (t t' : Tables) (r : ApprovalTombstone)
      → Revocation approval operation digest t r t'
      → P t
      → P t'
  pub revokes_all :
      (wallet operation digest : ℕ) (t t' : Tables) (r : RevocationState)
      → WalletRevocation wallet operation digest t r t'
      → P t
      → P t'
  pub observes :
      (reading : PlatformTimeReading) (boot_epoch max_step : ℕ) (rate_limited : Bool)
      (t t' : Tables) (r : Result ClockDecision)
      → Observed deps reading boot_epoch max_step rate_limited t r t'
      → P t
      → P t'
  pub repairs :
      (accepted : ℕ) (t t' : Tables) (r : ClockDecision) → Repaired accepted t r t' → P t → P t'

-- With the consistency of the tables, on which a release stands.
abbrev pub AndConsistent : (Tables → Type 0) → Tables → Type 0
AndConsistent P t = IsConsistent t × P t

module _ {deps : Deps} {P : Tables → Type 0} (k : Respects deps P) where
  signed :
      {A : Type 0} (t : Tables) (r : Result (A × Tables))
      → IsConsistent t × P t
      → Post (λ _ t'. Change t t' × Rest t t') r
      → Post (λ _ t'. AndConsistent P t') r
  signed t r h m =
      Post-mono (λ _ t' c. (Change-IsConsistent t t' c.0 h.0, k.signs t t' c.0 c.1 h.1)) m

  finalized :
      {A : Type 0} (t : Tables) (r : Result (A × Tables))
      → IsConsistent t × P t
      → Post (λ _ t'. Change t t') r
      → Post (λ _ t'. (t'.attempts ≡ t.attempts) × Rest t t') r
      → Post (λ _ t'. AndConsistent P t') r
  finalized t r h c m = signed t r h (Post-mono (λ _ t' x. (x.0, x.1.1)) (Post-both c m))

  pub Respects-Keeps : Keeps deps (AndConsistent P)
  Respects-Keeps = record {
    ignores_audit = λ t audit h. (
      Change-IsConsistent t _ (audit-Change t t audit (keep refl refl)) h.0,
      k.ignores_audit t audit h.1,
    );
    authorizes = λ request clock t h. signed t _ h (
        Post-mono (λ r t' w. (Authorized-Change deps request clock t t' r.0 w, w.rest))
          (authorize_body-Post deps request clock t));
    dispatches = λ operation key_ref attempts t h.
        finalized t _ h (dispatch-Change operation key_ref attempts t)
          (dispatch-KeepsRest operation key_ref attempts t);
    results = λ operation bytes t h.
        finalized t _ h (result-Change operation bytes t) (result-KeepsRest operation bytes t);
    releases = λ operation t h.
        finalized t _ h
          (finalize-Change operation released_effect t λ row already f.
            release-Change operation row already t f (h.0.unique_operations operation))
          (finalize-KeepsRest operation released_effect t);
    quarantines = λ operation t h.
        finalized t _ h
          (finalize-Change operation quarantined_effect t λ row already f.
            quarantine-Change operation row already t f (h.0.unique_operations operation))
          (finalize-KeepsRest operation quarantined_effect t);
    revokes = λ approval reason operation now digest t h.
        Post-mono
          (λ r t' e. (
            Change-IsConsistent t t' (Revocation-Change approval operation digest t r.0 t' e) h.0,
            k.revokes approval operation digest t t' r.0 e h.1,
          ))
          (revoke_body-Revocation deps approval reason operation now digest t);
    revokes_all = λ wallet operation now digest t h.
        Post-mono
          (λ r t' e. (
            Change-IsConsistent t t' (WalletRevocation-Change wallet operation digest t r.0 t' e)
                h.0,
            k.revokes_all wallet operation digest t t' r.0 e h.1,
          ))
          (revoke_all_body-WalletRevocation deps wallet operation now digest t);
    observes = λ reading boot_epoch max_step rate_limited t h.
        Post-mono
          (λ r t' e. (
            Change-IsConsistent t t' (keep e.1.operations e.1.approvals) h.0,
            k.observes reading boot_epoch max_step rate_limited t t' r.0 e.0 h.1,
          ))
          (Post-both (observe_body-Observed deps reading boot_epoch max_step rate_limited t)
            (observe_body-ClockOnly deps reading boot_epoch max_step rate_limited t));
    repairs = λ accepted t h.
        Post-mono
          (λ r t' e. (
            Change-IsConsistent t t' (keep e.1.operations e.1.approvals) h.0,
            k.repairs accepted t t' r.0 e.0 h.1,
          ))
          (Post-both (repair_body-Repaired accepted t) (repair_body-ClockOnly accepted t));
  }

  pub run-respects :
      (calls : List Call) (s : Engine)
      → IsConsistent s.tables
      → P s.tables
      → P (run deps calls s).tables
  run-respects calls s c h = (run-preserves Respects-Keeps calls s (c, h)).1
