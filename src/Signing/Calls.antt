-- ===== src/Signing/Calls.antt =====
-- Histories of calls of the signing part of crates/bloom-signer/src/engine.rs: authorizations, backend
-- effects, revocations and the durable clock.
use bloom_signer.Prelude.{Bool-cases, inl, inr, ℕ, Bool, List, [], ◌∷◌, Option}
use bloom_signer.Prelude.Result.{Result, ok, err, panic}
use bloom_signer.Prelude.Tx.{Tx, Post}
use bloom_signer.Signing.Request.{KeyRef, SignRequest}
use bloom_signer.Signing.State.{
  SignerOperationEffect, committed_effect, released_effect, quarantined_effect, SignAudit,
  PlatformTimeReading, Tables, Engine, Deps, ClockDecision, mutation_transaction,
}
use bloom_signer.Signing.Authorize.{authorize_body, authorize_after, authorize_sign}
use bloom_signer.Signing.Effects.{
  mark_operation_dispatched, commit_operation_result, finalize_operation, dispatch_body,
  result_body, finalize_body,
}
use bloom_signer.Signing.Revoke.{
  revoke_body, revoke_after, revoke_approval, revoke_all_body, revoke_all_after, revoke_all,
  bad_reason,
}
use bloom_signer.Signing.Clock.{observe_body, observe_time, repair_body, repair_clock}
use bloom_signer.Signing.Mutation.{mutation-keeps}

pub data Call : Type 0 where
  authorize : SignRequest → ClockDecision → Call
  dispatch : ℕ → KeyRef → List ℕ → Call
  result : ℕ → List ℕ → Call
  finalize : ℕ → SignerOperationEffect → Call
  revoke : (approval : ℕ) (reason : List ℕ) (operation now : ℕ) → Call
  revoke_wallet : (wallet operation now : ℕ) → Call
  observe : (reading : PlatformTimeReading) (boot_epoch max_step : ℕ) (rate_limited : Bool) → Call
  repair : ℕ → Call

unfoldable pub step : Deps → Call → Engine → Engine
step deps (authorize request clock) s = (authorize_sign deps request clock s).1
step deps (dispatch operation key_ref attempts) s =
    (mark_operation_dispatched deps operation key_ref attempts s).1
step deps (result operation bytes) s = (commit_operation_result deps operation bytes s).1
step deps (finalize operation effect) s = (finalize_operation deps operation effect s).1
step deps (revoke approval reason operation now) s =
    (revoke_approval deps approval reason operation now s).1
step deps (revoke_wallet wallet operation now) s = (revoke_all deps wallet operation now s).1
step deps (observe reading boot_epoch max_step rate_limited) s =
    (observe_time deps reading boot_epoch max_step rate_limited s).1
step deps (repair accepted) s = (repair_clock deps accepted s).1

unfoldable pub run : Deps → List Call → Engine → Engine
run deps [] s = s
run deps (call ∷ calls) s = run deps calls (step deps call s)

-- The bodies of the transactions keep a property of the tables, which ignores the audit chain.
pub record Keeps (deps : Deps) (P : Tables → Type 0) : Type 0 where
  pub ignores_audit : (t : Tables) (audit : List SignAudit) → P t → P (record t { audit = audit })
  pub authorizes :
      (request : SignRequest) (clock : ClockDecision) (t : Tables)
      → P t
      → Post (λ _ t'. P t') (authorize_body deps request clock t)
  pub dispatches :
      (operation : ℕ) (key_ref : KeyRef) (attempts : List ℕ) (t : Tables)
      → P t
      → Post (λ _ t'. P t') (dispatch_body operation key_ref attempts t)
  pub results :
      (operation : ℕ) (bytes : List ℕ) (t : Tables)
      → P t
      → Post (λ _ t'. P t') (result_body operation bytes t)
  pub releases :
      (operation : ℕ) (t : Tables)
      → P t
      → Post (λ _ t'. P t') (finalize_body operation released_effect t)
  pub quarantines :
      (operation : ℕ) (t : Tables)
      → P t
      → Post (λ _ t'. P t') (finalize_body operation quarantined_effect t)
  pub revokes :
      (approval : ℕ) (reason : List ℕ) (operation now digest : ℕ) (t : Tables)
      → P t
      → Post (λ _ t'. P t') (revoke_body deps approval reason operation now digest t)
  pub revokes_all :
      (wallet operation now digest : ℕ) (t : Tables)
      → P t
      → Post (λ _ t'. P t') (revoke_all_body deps wallet operation now digest t)
  pub observes :
      (reading : PlatformTimeReading) (boot_epoch max_step : ℕ) (rate_limited : Bool) (t : Tables)
      → P t
      → Post (λ _ t'. P t') (observe_body deps reading boot_epoch max_step rate_limited t)
  pub repairs : (accepted : ℕ) (t : Tables) → P t → Post (λ _ t'. P t') (repair_body accepted t)

module _ {deps : Deps} {P : Tables → Type 0} (k : Keeps deps P) (s : Engine) (h : P s.tables) where
  after :
      {A : Type 0} (body : Tx Tables (A × Option SignAudit))
      → Post (λ _ t. P t) (body s.tables)
      → P (mutation_transaction deps body s).1.tables
  after body = mutation-keeps P deps body s k.ignores_audit h

  authorize_kept :
      (request : SignRequest) (clock : ClockDecision) (r : Result (Unit {0}))
      → P (authorize_after deps request clock r s).1.tables
  unfolding authorize_after
  authorize_kept request clock (ok _) = after _ (k.authorizes request clock s.tables h)
  authorize_kept request clock (err _) = h
  authorize_kept request clock panic = h

  result_kept :
      (operation : ℕ) (bytes : List ℕ) → P (commit_operation_result deps operation bytes s).1.tables
  unfolding commit_operation_result
  result_kept operation [] = h
  result_kept operation (byte ∷ bytes) = after _ (k.results operation (byte ∷ bytes) s.tables h)

  finalize_kept :
      (operation : ℕ) (effect : SignerOperationEffect)
      → P (finalize_operation deps operation effect s).1.tables
  unfolding finalize_operation
  finalize_kept operation committed_effect = h
  finalize_kept operation released_effect = after _ (k.releases operation s.tables h)
  finalize_kept operation quarantined_effect = after _ (k.quarantines operation s.tables h)

  revoke_after_kept :
      (approval : ℕ) (reason : List ℕ) (operation now : ℕ) (r : Result ℕ)
      → P (revoke_after deps approval reason operation now r s).1.tables
  unfolding revoke_after
  revoke_after_kept approval reason operation now (ok digest) =
      after _ (k.revokes approval reason operation now digest s.tables h)
  revoke_after_kept approval reason operation now (err _) = h
  revoke_after_kept approval reason operation now panic = h

  revoke_kept :
      (approval : ℕ) (reason : List ℕ) (operation now : ℕ)
      → P (revoke_approval deps approval reason operation now s).1.tables
  unfolding revoke_approval
  revoke_kept approval reason operation now = elim (Bool-cases (bad_reason reason)) [
    | inl u ↦ rw u h
    | inr u ↦ rw u (revoke_after_kept approval reason operation now _)
  ]

  revoke_all_kept :
      (wallet operation now : ℕ) (r : Result ℕ)
      → P (revoke_all_after deps wallet operation now r s).1.tables
  unfolding revoke_all_after
  revoke_all_kept wallet operation now (ok digest) =
      after _ (k.revokes_all wallet operation now digest s.tables h)
  revoke_all_kept wallet operation now (err _) = h
  revoke_all_kept wallet operation now panic = h

  pub step-keeps : (call : Call) → P (step deps call s).tables
  unfolding step authorize_sign mark_operation_dispatched revoke_all observe_time repair_clock
  step-keeps (authorize request clock) = authorize_kept request clock _
  step-keeps (dispatch operation key_ref attempts) =
      after _ (k.dispatches operation key_ref attempts s.tables h)
  step-keeps (result operation bytes) = result_kept operation bytes
  step-keeps (finalize operation effect) = finalize_kept operation effect
  step-keeps (revoke approval reason operation now) = revoke_kept approval reason operation now
  step-keeps (revoke_wallet wallet operation now) = revoke_all_kept wallet operation now _
  step-keeps (observe reading boot_epoch max_step rate_limited) =
      after _ (k.observes reading boot_epoch max_step rate_limited s.tables h)
  step-keeps (repair accepted) = after _ (k.repairs accepted s.tables h)

-- What the bodies keep, every history keeps.
pub run-preserves :
    {deps : Deps} {P : Tables → Type 0}
    → Keeps deps P
    → (calls : List Call) (s : Engine) → P s.tables
    → P (run deps calls s).tables
unfolding run
run-preserves k [] s h = h
run-preserves {deps} k (call ∷ calls) s h =
    run-preserves k calls (step deps call s) (step-keeps k s h call)
