-- ===== src/Signing/History.antt =====
-- Histories of signing calls of crates/bloom-signer/src/engine.rs, with the limits of an approval.
use bloom_signer.Prelude.{
  ℕ, ◌≤◌, List, [], ◌∷◌, Option, some, ◌≡◌, refl, find?, All, arith, sym, subst, Bool-cases, inl,
  inr,
}
use bloom_signer.Prelude.Result.{Result, ok, err, panic}
use bloom_signer.Prelude.Tx.{Post, Post-mono}
use bloom_signer.Prelude.Split.{found-Split, All-right}
use bloom_signer.Signing.Request.{SignRequest}
use bloom_signer.Signing.Terms.{SealedApprovalTerms}
use bloom_signer.Signing.State.{
  SignerOperationEffect, committed_effect, released_effect, quarantined_effect, Approval, Tables,
  Engine, Deps, ClockDecision, SignAudit, mutation_transaction, is_approval,
}
use bloom_signer.Signing.Authorize.{authorize_body, authorize_after, authorize_sign}
use bloom_signer.Signing.Effects.{
  mark_operation_dispatched, commit_operation_result, finalize_operation, dispatch_body,
  result_body, finalize_body,
}
use bloom_signer.Signing.Revocation.{ApprovalTombstone, RevocationState}
use bloom_signer.Signing.Revoke.{
  revoke_body, revoke_after, revoke_approval, revoke_all_body, revoke_all_after, revoke_all,
  bad_reason, belongs_to,
}
use bloom_signer.Signing.Clock.{observe_body, observe_time, repair_body, repair_clock}
use bloom_signer.Signing.Revoked.{
  Revocation, retried, reconciled, revoked, revoke_body-Revocation, WalletRevocation, retried_all,
  revoked_all, revoke_all_body-WalletRevocation,
}
use bloom_signer.Signing.Observed.{observe_body-ClockOnly, repair_body-ClockOnly}
use bloom_signer.Signing.Calls.{
  Call, authorize, dispatch, result, finalize, revoke, revoke_wallet, observe, repair, step, run,
}
use bloom_signer.Signing.Mutation.{mutation-keeps}
use bloom_signer.Signing.Authorized.{authorize_body-Post}
use bloom_signer.Signing.Changes.{Change, keep, reserve, settle, release, deactivate}
use bloom_signer.Signing.Totals.{live_operations, live_signatures}
use bloom_signer.Signing.Counted.{IsConsistent, IsWithin, Change-IsConsistent}
use bloom_signer.Signing.Steps.{
  dispatch-Change, result-Change, release-Change, quarantine-Change, finalize-Change,
  Authorized-Change,
}

-- The audit entries are no part of a change.
pub audit-Change :
    (t0 t : Tables) (audit : List SignAudit) → Change t0 t → Change t0 (record t { audit = audit })
audit-Change t0 t audit (keep o a) = keep o a
audit-Change t0 t audit (reserve new approval terms n m f p o s l r e a) =
    reserve new approval terms n m f p o s l r e a
audit-Change t0 t audit (settle row new w l e) =
    settle row new
      (record {
        before = w.before;
        after = w.after;
        whole = w.whole;
        operations = w.operations;
        same_key = w.same_key;
        was_live = w.was_live;
        was_open = w.was_open;
        left_reserved = w.left_reserved;
      })
      l e
audit-Change t0 t audit (release row new approval n m w g f o s e) =
    release row new approval n m
      (record {
        before = w.before;
        after = w.after;
        whole = w.whole;
        operations = w.operations;
        same_key = w.same_key;
        was_live = w.was_live;
        was_open = w.was_open;
        left_reserved = w.left_reserved;
      })
      g f o s e
audit-Change t0 t audit (deactivate test o a) = deactivate test o a

-- The bodies of the revocations.
pub Revocation-Change :
    (approval operation digest : ℕ) (t : Tables) (r : ApprovalTombstone) (t' : Tables)
    → Revocation approval operation digest t r t'
    → Change t t'
Revocation-Change approval operation digest t r t' (retried stored e) = keep (rw e refl) (rw e refl)
Revocation-Change approval operation digest t r t' (reconciled wallet f c e) =
    keep (rw e refl) (rw e refl)
Revocation-Change approval operation digest t r t' (revoked row f n c k e) =
    deactivate (is_approval approval) (rw e refl) (rw e refl)

pub WalletRevocation-Change :
    (wallet operation digest : ℕ) (t : Tables) (r : RevocationState) (t' : Tables)
    → WalletRevocation wallet operation digest t r t'
    → Change t t'
WalletRevocation-Change wallet operation digest t r t' (retried_all stored e) =
    keep (rw e refl) (rw e refl)
WalletRevocation-Change wallet operation digest t r t' (revoked_all tombstone next a c k e) =
    deactivate (belongs_to wallet) (rw e refl) (rw e refl)

module _ (deps : Deps) (s : Engine) where
  ends :
      {A : Type 0} (body : Tables → Result ((A × Option SignAudit) × Tables))
      → Post (λ _ t. Change s.tables t) (body s.tables)
      → Change s.tables (mutation_transaction deps body s).1.tables
  ends body = mutation-keeps (Change s.tables) deps body s (audit-Change s.tables) (keep refl refl)

  finalize_operation-Change :
      (operation : ℕ) (effect : SignerOperationEffect)
      → IsConsistent s.tables
      → Change s.tables (finalize_operation deps operation effect s).1.tables
  unfolding finalize_operation
  finalize_operation-Change operation committed_effect h = keep refl refl
  finalize_operation-Change operation released_effect h =
      ends (finalize_body operation released_effect) (
        finalize-Change operation released_effect s.tables λ row already f.
          release-Change operation row already s.tables f (h.unique_operations operation))
  finalize_operation-Change operation quarantined_effect h =
      ends (finalize_body operation quarantined_effect) (
        finalize-Change operation quarantined_effect s.tables λ row already f.
          quarantine-Change operation row already s.tables f (h.unique_operations operation))

  commit_operation_result-Change :
      (operation : ℕ) (bytes : List ℕ)
      → Change s.tables (commit_operation_result deps operation bytes s).1.tables
  unfolding commit_operation_result
  commit_operation_result-Change operation [] = keep refl refl
  commit_operation_result-Change operation (byte ∷ bytes) =
      ends (result_body operation (byte ∷ bytes)) (result-Change operation (byte ∷ bytes) s.tables)

  authorize_after-Change :
      (request : SignRequest) (clock : ClockDecision) (r : Result (Unit {0}))
      → Change s.tables (authorize_after deps request clock r s).1.tables
  unfolding authorize_after
  authorize_after-Change request clock (ok _) = ends (authorize_body deps request clock) (
      Post-mono (λ r t. Authorized-Change deps request clock s.tables t r.0)
        (authorize_body-Post deps request clock s.tables))
  authorize_after-Change request clock (err _) = keep refl refl
  authorize_after-Change request clock panic = keep refl refl

  revoke_after-Change :
      (approval : ℕ) (reason : List ℕ) (operation now : ℕ) (r : Result ℕ)
      → Change s.tables (revoke_after deps approval reason operation now r s).1.tables
  unfolding revoke_after
  revoke_after-Change approval reason operation now (ok digest) =
      ends (revoke_body deps approval reason operation now digest) (
        Post-mono (λ r t. Revocation-Change approval operation digest s.tables r.0 t)
          (revoke_body-Revocation deps approval reason operation now digest s.tables))
  revoke_after-Change approval reason operation now (err _) = keep refl refl
  revoke_after-Change approval reason operation now panic = keep refl refl

  revoke_approval-Change :
      (approval : ℕ) (reason : List ℕ) (operation now : ℕ)
      → Change s.tables (revoke_approval deps approval reason operation now s).1.tables
  unfolding revoke_approval
  revoke_approval-Change approval reason operation now = elim (Bool-cases (bad_reason reason)) [
    | inl u ↦ rw u (keep refl refl)
    | inr u ↦ rw u (revoke_after-Change approval reason operation now _)
  ]

  revoke_all_after-Change :
      (wallet operation now : ℕ) (r : Result ℕ)
      → Change s.tables (revoke_all_after deps wallet operation now r s).1.tables
  unfolding revoke_all_after
  revoke_all_after-Change wallet operation now (ok digest) =
      ends (revoke_all_body deps wallet operation now digest) (
        Post-mono (λ r t. WalletRevocation-Change wallet operation digest s.tables r.0 t)
          (revoke_all_body-WalletRevocation deps wallet operation now digest s.tables))
  revoke_all_after-Change wallet operation now (err _) = keep refl refl
  revoke_all_after-Change wallet operation now panic = keep refl refl

  pub step-Change :
      (call : Call) → IsConsistent s.tables → Change s.tables (step deps call s).tables
  unfolding step authorize_sign mark_operation_dispatched revoke_all observe_time repair_clock
  step-Change (authorize request clock) h = authorize_after-Change request clock _
  step-Change (dispatch operation key_ref attempts) h =
      ends (dispatch_body operation key_ref attempts)
        (dispatch-Change operation key_ref attempts s.tables)
  step-Change (result operation bytes) h = commit_operation_result-Change operation bytes
  step-Change (finalize operation effect) h = finalize_operation-Change operation effect h
  step-Change (revoke approval reason operation now) h =
      revoke_approval-Change approval reason operation now
  step-Change (revoke_wallet wallet operation now) h =
      revoke_all_after-Change wallet operation now _
  step-Change (observe reading boot_epoch max_step rate_limited) h =
      ends (observe_body deps reading boot_epoch max_step rate_limited) (
        Post-mono (λ _ t o. keep o.operations o.approvals)
          (observe_body-ClockOnly deps reading boot_epoch max_step rate_limited s.tables))
  step-Change (repair accepted) h =
      ends (repair_body accepted) (
        Post-mono (λ _ t o. keep o.operations o.approvals)
          (repair_body-ClockOnly accepted s.tables))

-- What every change keeps, every history keeps.
pub run-keeps :
    (P : Tables → Type 0) (deps : Deps)
    → ((t t' : Tables) → Change t t' → P t → P t')
    → (calls : List Call) (s : Engine) → IsConsistent s.tables
    → P s.tables
    → P (run deps calls s).tables
unfolding run
run-keeps P deps kept [] s c h = h
run-keeps P deps kept (call ∷ calls) s c h =
    let change = step-Change deps s call c in
    run-keeps P deps kept calls (step deps call s)
      (Change-IsConsistent s.tables (step deps call s).tables change c) (kept s.tables _ change h)

pub run-IsConsistent :
    (deps : Deps) (calls : List Call) (s : Engine)
    → IsConsistent s.tables
    → IsConsistent (run deps calls s).tables
run-IsConsistent deps calls s c = run-keeps IsConsistent deps Change-IsConsistent calls s c c

-- The limits of an approval hold in every history of signing calls: from tables whose operation ids
-- and approval ids are keys and whose counters match and are within the terms, after any sequence
-- of calls (authorizations, dispatches, results, finalizations, revocations and calls of the clock)
-- the operations of an approval that were
-- not released are at most its `max_operations`, their signatures at most its `max_signatures`, and
-- the stored counters are exactly these numbers.
pub run-within_limits :
    (deps : Deps) (calls : List Call) (s : Engine) (id : ℕ) (a : Approval)
    (terms : SealedApprovalTerms)
    → IsConsistent s.tables
    → find? (is_approval id) (run deps calls s).tables.approvals ≡ some a
    → a.terms ≡ some terms
    → (live_operations id (run deps calls s).tables.operations ≤ terms.limits.max_operations)
      × (live_signatures id (run deps calls s).tables.operations ≤ terms.limits.max_signatures)
      × (a.committed_operations ≡ live_operations id (run deps calls s).tables.operations)
      × (a.committed_signatures ≡ live_signatures id (run deps calls s).tables.operations)
unfolding is_approval
run-within_limits deps calls s id a terms c f p =
    let t = (run deps calls s).tables in
    let h = run-IsConsistent deps calls s c in
    let split = found-Split (is_approval id) t.approvals a f (h.unique_approvals id) in
    let here =
      (All-right (IsWithin t.operations) split.before (a ∷ split.after)
        (subst (All (IsWithin t.operations)) split.whole h.approvals_within)).0 in
    let same : a.approval_id ≡ id = let k = split.hit in ground arith in
    let b = here.within terms p in
    let operations : a.committed_operations ≡ live_operations id t.operations =
      rw (sym same) here.operations_counted in
    let signatures : a.committed_signatures ≡ live_signatures id t.operations =
      rw (sym same) here.signatures_counted in
    (rw (sym operations) b.0, rw (sym signatures) b.1, operations, signatures)
