-- ===== src/Signing/Final.antt =====
-- A revocation of crates/bloom-signer/src/engine.rs is final for `authorize_sign`.
use bloom_signer.Prelude.{
  ℕ, ◌+◌, ◌≤◌, true, false, List, some, ◌≡◌, ◌≢◌, refl, sym, ap, subst, ◌∙◌, find?, arith,
}
use bloom_signer.Prelude.Result.{ok}
use bloom_signer.Prelude.Rows.{find?-test}
use bloom_signer.Prelude.Split.{find?-All}
use bloom_signer.Signing.Request.{SignRequest}
use bloom_signer.Signing.Terms.{SealedApprovalTerms}
use bloom_signer.Signing.Revocation.{ApprovalTombstone, RevocationState}
use bloom_signer.Signing.State.{
  SignAuthorization, Approval, SignAudit, Tables, Engine, Deps, ClockDecision, is_approval,
}
use bloom_signer.Signing.Checks.{wallet_epoch}
use bloom_signer.Signing.Authorize.{authorize_sign}
use bloom_signer.Signing.Revoke.{revoke_approval, revoke_all}
use bloom_signer.Signing.Authorized.{authorize_sign-Authorized}
use bloom_signer.Signing.Changes.{Change, keep}
use bloom_signer.Signing.Counted.{IsConsistent, Change-IsConsistent}
use bloom_signer.Signing.Calls.{Call, run}
use bloom_signer.Signing.History.{audit-Change, Revocation-Change, WalletRevocation-Change}
use bloom_signer.Signing.Respects.{Respects, run-respects}
use bloom_signer.Signing.Observed.{ClockOnly, written-ClockOnly}
use bloom_signer.Signing.Answers.{revoke_approval-Revocation, revoke_all-WalletRevocation}
use bloom_signer.Signing.Enforced.{
  Inactive, IsInactive, IsEnforced, Tighter, Tighter-refl, Tighter-then, Tighter-same,
  Revocation-Tighter, WalletRevocation-Tighter, Rest-IsEnforced, ClockOnly-IsEnforced,
  Revocation-IsEnforced, WalletRevocation-IsEnforced, audit-IsEnforced,
}

IsEnforced-Respects : (deps : Deps) → Respects deps IsEnforced
IsEnforced-Respects deps = record {
  ignores_audit = audit-IsEnforced;
  signs = Rest-IsEnforced;
  revokes = λ approval operation digest t t' r e h.
      (Revocation-IsEnforced approval operation digest t r t' e h).0;
  revokes_all = λ wallet operation digest t t' r e h.
      (WalletRevocation-IsEnforced wallet operation digest t r t' e h).0;
  observes = λ reading boot_epoch max_step rate_limited t t' r e h.
      ClockOnly-IsEnforced t t' (written-ClockOnly _ _ _ _ t t' e.written) h;
  repairs =
      λ accepted t t' r e h. ClockOnly-IsEnforced t t' (written-ClockOnly _ _ _ _ t t' e.written) h;
}

pub audited-IsConsistent :
    (t0 t : Tables) (s' : Engine) (audit : List SignAudit)
    → s'.tables ≡ record t { audit = audit }
    → Change t0 t
    → IsConsistent t0
    → IsConsistent s'.tables
audited-IsConsistent t0 t s' audit e change c =
    Change-IsConsistent t0 s'.tables (subst (Change t0) (sym e) (audit-Change t0 t audit change)) c

audited-epoch :
    (t : Tables) (s' : Engine) (audit : List SignAudit) (wallet : ℕ)
    → s'.tables ≡ record t { audit = audit }
    → wallet_epoch s'.tables wallet ≡ wallet_epoch t wallet
unfolding wallet_epoch
audited-epoch t s' audit wallet e = rw (ap (λ x. x.wallet_states) e) refl

clock-Tighter : (t t' : Tables) → ClockOnly t t' → Tighter t t'
clock-Tighter t t' c = Tighter-same t t' (keep c.operations c.approvals) c.wallet_states

-- The stored revocations are in force in every history: from consistent tables, if every tombstone
-- names an approval none of whose rows is active, every stored result of `revoke_approval` likewise,
-- and every stored result of `revoke_all` an epoch that its wallet has reached, then this holds after
-- any sequence of calls.
pub run-IsEnforced :
    (deps : Deps) (calls : List Call) (s : Engine)
    → IsConsistent s.tables
    → IsEnforced s.tables
    → IsEnforced (run deps calls s).tables
run-IsEnforced deps calls s c h = run-respects (IsEnforced-Respects deps) calls s c h

-- No call activates an approval or lowers an epoch.
Tighter-Respects : (deps : Deps) (t0 : Tables) → Respects deps (Tighter t0)
Tighter-Respects deps t0 = record {
  ignores_audit = λ t audit h. Tighter-then h (Tighter-same t _ (keep refl refl) refl);
  signs = λ t t' change rest h. Tighter-then h (Tighter-same t t' change rest.wallet_states);
  revokes = λ approval operation digest t t' r e h.
      Tighter-then h (Revocation-Tighter approval operation digest t r t' e);
  revokes_all = λ wallet operation digest t t' r e h.
      Tighter-then h (WalletRevocation-Tighter wallet operation digest t r t' e);
  observes = λ reading boot_epoch max_step rate_limited t t' r e h.
      Tighter-then h (clock-Tighter t t' (written-ClockOnly _ _ _ _ t t' e.written));
  repairs = λ accepted t t' r e h.
      Tighter-then h (clock-Tighter t t' (written-ClockOnly _ _ _ _ t t' e.written));
}

run-Tighter :
    (deps : Deps) (calls : List Call) (s : Engine)
    → IsConsistent s.tables
    → Tighter s.tables (run deps calls s).tables
run-Tighter deps calls s c =
    run-respects (Tighter-Respects deps s.tables) calls s c (Tighter-refl s.tables)

-- An approval that is inactive, or whose epoch is over, is not authorized.
inactive_refused :
    (deps : Deps) (request : SignRequest) (clock : ClockDecision) (s s' : Engine)
    (authorization : SignAuthorization)
    → IsInactive request.unsigned.approval_id s.tables
    → authorize_sign deps request clock s ≢ (ok authorization, s')
inactive_refused deps request clock s s' authorization h k =
    let id = request.unsigned.approval_id in
    let w = (authorize_sign-Authorized deps request clock s s' authorization k).1.approved in
    let hit = find?-test (is_approval id) s.tables.approvals w.approval w.stored in
    let off =
      find?-All (Inactive id) (is_approval id) s.tables.approvals w.approval w.stored h hit in
    true≢false (sym w.active ∙ off)
  where
    true≢false : true ≢ false
    true≢false x = cc

-- A revoked approval signs nothing again: from consistent tables whose stored revocations are in
-- force, once `revoke_approval` answered `Ok` with a tombstone, `authorize_sign` answers `Ok` to no
-- request under the approval that the tombstone names, after any sequence of calls.
pub revoke_approval-final :
    (deps : Deps) (approval : ℕ) (reason : List ℕ) (operation now : ℕ) (s s' s'' : Engine)
    (tombstone : ApprovalTombstone) (request : SignRequest) (clock : ClockDecision)
    (authorization : SignAuthorization)
    → IsConsistent s.tables
    → IsEnforced s.tables
    → revoke_approval deps approval reason operation now s ≡ (ok tombstone, s')
    → request.unsigned.approval_id ≡ tombstone.approval_id
    → (calls : List Call)
    → authorize_sign deps request clock (run deps calls s') ≢ (ok authorization, s'')
revoke_approval-final deps approval reason operation now s s' s'' tombstone request clock
      authorization c h e same calls =
    let ran = revoke_approval-Revocation deps approval reason operation now s s' tombstone e in
    let change =
      Revocation-Change approval operation ran.digest s.tables tombstone ran.tables ran.did in
    let force =
      (Revocation-IsEnforced approval operation ran.digest s.tables tombstone ran.tables ran.did
        h).1 in
    let c' = audited-IsConsistent s.tables ran.tables s' ran.audit ran.final change c in
    let here : IsInactive tombstone.approval_id s'.tables =
      rw (ap (λ t. t.approvals) ran.final) force in
    let later = (run-Tighter deps calls s' c').inactive tombstone.approval_id here in
    inactive_refused deps request clock (run deps calls s') s'' authorization
      (subst (λ id. IsInactive id (run deps calls s').tables) (sym same) later)

-- A revoked wallet signs under no older approval again: from consistent tables whose stored
-- revocations are in force, once `revoke_all` answered `Ok` with a state, `authorize_sign` answers
-- `Ok` to no request under an approval of that wallet whose terms carry an epoch below the epoch of
-- the state, after any sequence of calls.
pub revoke_all-final :
    (deps : Deps) (wallet operation now : ℕ) (s s' s'' : Engine) (state : RevocationState)
    (request : SignRequest) (clock : ClockDecision) (authorization : SignAuthorization)
    (row : Approval) (terms : SealedApprovalTerms)
    → IsConsistent s.tables
    → IsEnforced s.tables
    → revoke_all deps wallet operation now s ≡ (ok state, s')
    → (calls : List Call)
    → find? (is_approval request.unsigned.approval_id) (run deps calls s').tables.approvals
      ≡ some row
    → row.terms ≡ some terms
    → terms.wallet_id ≡ state.wallet_id
    → terms.wallet_revocation_epoch + 1 ≤ state.wallet_revocation_epoch
    → authorize_sign deps request clock (run deps calls s') ≢ (ok authorization, s'')
revoke_all-final deps wallet operation now s s' s'' state request clock authorization row terms c h
      e calls f p same older k =
    let ran = revoke_all-WalletRevocation deps wallet operation now s s' state e in
    let change =
      WalletRevocation-Change wallet operation ran.digest s.tables state ran.tables ran.did in
    let force =
      (WalletRevocation-IsEnforced wallet operation ran.digest s.tables state ran.tables ran.did
        h).1 in
    let c' = audited-IsConsistent s.tables ran.tables s' ran.audit ran.final change c in
    let here = audited-epoch ran.tables s' ran.audit state.wallet_id ran.final in
    let later = (run-Tighter deps calls s' c').epochs state.wallet_id in
    let w =
      (authorize_sign-Authorized deps request clock (run deps calls s') s'' authorization k).1 in
    let own = same_terms w.approved.approval w.terms w.approved.stored w.approved.parsed in
    let epoch : wallet_epoch (run deps calls s').tables state.wallet_id
        ≡ terms.wallet_revocation_epoch =
      rw (sym same) (rw (sym own) w.approved.epoch_current) in
    omega arith
  where
    same_terms :
        (a : Approval) (terms' : SealedApprovalTerms)
        → find? (is_approval request.unsigned.approval_id) (run deps calls s').tables.approvals
          ≡ some a
        → a.terms ≡ some terms'
        → terms' ≡ terms
    same_terms a terms' f' p' = same_row (some_injective (sym f' ∙ f)) p'
      where
        some_injective : some a ≡ some row → a ≡ row
        some_injective x = cc

        same_row : a ≡ row → a.terms ≡ some terms' → terms' ≡ terms
        same_row x y = cc
