-- ===== src/Signing/Observed.antt =====
-- What `observe_time` and `repair_clock` of crates/bloom-signer/src/engine.rs have done when their
-- transactions succeed.
use bloom_signer.Prelude.{ℕ, ◌≤◌, Bool, some, ◌≡◌, refl, arith}
use bloom_signer.Prelude.Result.{Result, ok}
use bloom_signer.Prelude.Tx.{Post, ended, ok-Post, reject-Post, lift-Post, ok_or-Post, Post-mono}
use bloom_signer.Signing.State.{
  repaired, ClockCondition, ClockState, PlatformTimeReading, DurableDecision, Tables, Deps,
  ClockDecision,
}
use bloom_signer.Signing.Clock.{
  signer_clock_condition, evaluate, write_clock_state, decision, answer, observe_body, repair_body,
}

-- All but the clock is left alone.
pub record ClockOnly (t t' : Tables) : Type 0 where
  pub attempts : t'.attempts ≡ t.attempts
  pub operations : t'.operations ≡ t.operations
  pub approvals : t'.approvals ≡ t.approvals
  pub wallet_states : t'.wallet_states ≡ t.wallet_states
  pub approval_tombstones : t'.approval_tombstones ≡ t.approval_tombstones
  pub revocation_operations : t'.revocation_operations ≡ t.revocation_operations

pub written-ClockOnly :
    (effective : ℕ) (condition : ClockCondition) (reading : PlatformTimeReading) (boot_epoch : ℕ)
    (t t' : Tables)
    → t' ≡ write_clock_state effective condition reading boot_epoch t
    → ClockOnly t t'
unfolding write_clock_state
written-ClockOnly effective condition reading boot_epoch t t' e = record {
  attempts = rw e refl;
  operations = rw e refl;
  approvals = rw e refl;
  wallet_states = rw e refl;
  approval_tombstones = rw e refl;
  revocation_operations = rw e refl;
}

pub record Observed (deps : Deps) (reading : PlatformTimeReading) (boot_epoch max_step : ℕ)
    (rate_limited : Bool) (t : Tables) (r : Result ClockDecision) (t' : Tables) : Type 0 where
  pub evaluated : DurableDecision
  pub evaluation : evaluate deps reading boot_epoch max_step t.clock_state ≡ ok evaluated
  pub answered : r ≡ answer rate_limited evaluated.condition (decision reading boot_epoch evaluated)
  pub written :
      t'
      ≡ write_clock_state evaluated.effective_now_ms
          (signer_clock_condition evaluated.condition)
          reading
          boot_epoch
          t

pub observe_body-Observed :
    (deps : Deps) (reading : PlatformTimeReading) (boot_epoch max_step : ℕ) (rate_limited : Bool)
    (t : Tables)
    → Post
        (λ r t'. Observed deps reading boot_epoch max_step rate_limited t r.0 t')
        (observe_body deps reading boot_epoch max_step rate_limited t)
unfolding observe_body
observe_body-Observed deps reading boot_epoch max_step rate_limited t = ok-Post _ (
    lift-Post _ λ d evaluation. lift-Post _ λ event made.
      ok-Post _ (
        ended (record { evaluated = d; evaluation = evaluation; answered = refl; written = refl })))

pub record Repaired (accepted : ℕ) (t : Tables) (r : ClockDecision) (t' : Tables) : Type 0 where
  pub prior : ClockState
  pub boot_epoch : ℕ
  pub reading : PlatformTimeReading
  pub stored : t.clock_state ≡ some prior
  pub recorded : prior.boot_epoch ≡ some boot_epoch
  pub forward : prior.last_effective_ms ≤ accepted
  pub effective : r.effective_now_ms ≡ accepted
  pub written : t' ≡ write_clock_state accepted repaired reading boot_epoch t

pub repair_body-Repaired :
    (accepted : ℕ) (t : Tables) → Post (λ r t'. Repaired accepted t r.0 t') (repair_body accepted t)
unfolding repair_body
repair_body-Repaired accepted t = ok-Post _ (
    ok_or-Post _ _ λ prior stored. reject-Post _ _ λ forward. ok_or-Post _ _ λ epoch recorded.
      ok-Post _ (
        ended (record {
          prior = prior;
          boot_epoch = epoch;
          reading = _;
          stored = stored;
          recorded = recorded;
          forward = ground arith;
          effective = refl;
          written = refl;
        })))

-- Both leave all but the clock alone.
pub observe_body-ClockOnly :
    (deps : Deps) (reading : PlatformTimeReading) (boot_epoch max_step : ℕ) (rate_limited : Bool)
    (t : Tables)
    → Post (λ _ t'. ClockOnly t t') (observe_body deps reading boot_epoch max_step rate_limited t)
observe_body-ClockOnly deps reading boot_epoch max_step rate_limited t =
    Post-mono (λ _ t' o. written-ClockOnly _ _ _ _ t t' o.written)
      (observe_body-Observed deps reading boot_epoch max_step rate_limited t)

pub repair_body-ClockOnly :
    (accepted : ℕ) (t : Tables) → Post (λ _ t'. ClockOnly t t') (repair_body accepted t)
repair_body-ClockOnly accepted t =
    Post-mono (λ _ t' o. written-ClockOnly _ _ _ _ t t' o.written) (repair_body-Repaired accepted t)
