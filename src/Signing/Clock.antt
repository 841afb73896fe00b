-- ===== src/Signing/Clock.antt =====
-- The durable clock of the engine: `observe_time`, `observe_time_read_only`, `repair_clock`,
-- `write_clock_state` and `active_approvals_expiring_by` of crates/bloom-signer/src/engine.rs.
use bloom_signer.Prelude.{ℕ, Bool, true, false, Option, none, some, ◌==◌, ltb, if◌then◌else◌}
use bloom_signer.Prelude.Result.{
  Result, ok, err, panic, clock_untrusted as code_untrusted, clock_rollback, malformed_frame,
  ◌>>=◌ as ◌>>>=◌, ok_or as some_or,
}
use bloom_signer.Prelude.Tx.{Tx, ◌>>=◌, ◌>>◌, pure, gets, modify, lift, reject_if, ok_or}
use bloom_signer.Signing.State.{
  ClockCondition, healthy, forward_jump_rejected, untrusted, rollback_frozen, repaired, ClockState,
  ClockAudit, SignAudit, clock_untrusted, clock_initialized, clock_observed, clock_rollback_frozen,
  clock_forward_jump, clock_repaired, PersistedClockState, PlatformTimeReading,
  DurableClockCondition, durable_healthy, durable_untrusted, durable_rollback, durable_forward_jump,
  DurableDecision, Tables, Engine, Deps, ClockDecision, mutation_transaction,
}

-- `comparable_boot_epoch`: the epoch of zeros means that none was recorded.
unfoldable pub comparable_boot_epoch : ℕ → Option ℕ
comparable_boot_epoch epoch = if epoch == 0 then none else some epoch

-- `signer_clock_condition`
unfoldable pub signer_clock_condition : DurableClockCondition → ClockCondition
signer_clock_condition durable_healthy = healthy
signer_clock_condition durable_untrusted = untrusted
signer_clock_condition durable_rollback = rollback_frozen
signer_clock_condition durable_forward_jump = forward_jump_rejected

-- What is read of the stored row.
unfoldable pub persisted : Option ClockState → Result (Option PersistedClockState)
persisted none = ok none
persisted (some row) = some_or row.boot_epoch code_untrusted >>>= λ epoch. ok (
    some (record {
      last_effective_ms = row.last_effective_ms;
      monotonic_anchor_ns = row.monotonic_anchor_ns;
      boot_epoch = comparable_boot_epoch epoch;
    }))

-- The evaluation that observing shares, with and without a write.
unfoldable pub evaluate :
    Deps → PlatformTimeReading → ℕ → ℕ → Option ClockState → Result DurableDecision
evaluate deps reading boot_epoch max_step stored = persisted stored >>>= λ previous.
    some_or
      (deps.evaluate_durable_clock previous reading (comparable_boot_epoch boot_epoch) max_step)
      code_untrusted

-- `write_clock_state`: one row, inserted or replaced.
unfoldable pub write_clock_state : ℕ → ClockCondition → PlatformTimeReading → ℕ → Tables → Tables
write_clock_state effective condition reading boot_epoch t = record t {
  clock_state = some (record {
    last_effective_ms = effective;
    condition = condition;
    observed_utc_ms = reading.utc_ms;
    monotonic_anchor_ns = reading.monotonic_anchor_ns;
    boot_epoch = some boot_epoch;
  });
}

abbrev pub decision : PlatformTimeReading → ℕ → DurableDecision → ClockDecision
decision reading boot_epoch d = record {
  effective_now_ms = d.effective_now_ms;
  condition = signer_clock_condition d.condition;
  observed_utc_ms = reading.utc_ms;
  monotonic_anchor_ns = reading.monotonic_anchor_ns;
  boot_epoch = boot_epoch;
}

abbrev pub audit_of : PlatformTimeReading → ℕ → ℕ → ClockAudit
audit_of reading boot_epoch effective = record {
  effective_now_ms = effective;
  monotonic_anchor_ns = reading.monotonic_anchor_ns;
  boot_epoch = boot_epoch;
}

-- The answer after the commit: a rate-limited mutation is refused under a bad condition, while the
-- state that was written stays.
unfoldable pub answer : Bool → DurableClockCondition → ClockDecision → Result ClockDecision
answer true durable_untrusted d = err code_untrusted
answer true durable_rollback d = err clock_rollback
answer _ _ d = ok d

-- The audit event of an observation. A trusted decision without UTC is refused.
unfoldable pub clock_event : DurableClockCondition → Bool → ClockAudit → Option ℕ → Result SignAudit
clock_event durable_untrusted initializing audit utc = ok (clock_untrusted audit)
clock_event durable_healthy true audit utc =
    some_or utc code_untrusted >>>= λ _. ok (clock_initialized audit)
clock_event durable_healthy false audit utc =
    some_or utc code_untrusted >>>= λ utc_ms. ok (clock_observed utc_ms audit)
clock_event durable_rollback initializing audit utc =
    some_or utc code_untrusted >>>= λ utc_ms. ok (clock_rollback_frozen utc_ms audit)
clock_event durable_forward_jump initializing audit utc =
    some_or utc code_untrusted >>>= λ utc_ms. ok (clock_forward_jump utc_ms audit)

unfoldable pub is_missing : Option ClockState → Bool
is_missing none = true
is_missing (some _) = false

unfoldable pub observe_body :
    Deps → PlatformTimeReading → ℕ → ℕ → Bool → Tx Tables (Result ClockDecision × Option SignAudit)
observe_body deps reading boot_epoch max_step rate_limited = do
  stored ← gets (λ t. t.clock_state)
  d ← lift (evaluate deps reading boot_epoch max_step stored)
  event ← lift (
      clock_event d.condition (is_missing stored) (audit_of reading boot_epoch d.effective_now_ms)
        reading.utc_ms)
  modify
      (write_clock_state d.effective_now_ms (signer_clock_condition d.condition) reading boot_epoch)
  pure (answer rate_limited d.condition (decision reading boot_epoch d), some event)

-- The result of a transaction that may commit and then refuse.
unfoldable pub flatten : {A : Type 0} → Result (Result A) → Result A
flatten (ok r) = r
flatten (err e) = err e
flatten panic = panic

-- `observe_time`
unfoldable pub observe_time :
    Deps → PlatformTimeReading → ℕ → ℕ → Bool → Engine → Result ClockDecision × Engine
observe_time deps reading boot_epoch max_step rate_limited s =
    let outcome =
      mutation_transaction deps (observe_body deps reading boot_epoch max_step rate_limited) s in
    (flatten outcome.0, outcome.1)

-- `observe_time_read_only`
unfoldable pub observe_time_read_only :
    Deps → PlatformTimeReading → ℕ → ℕ → Engine → Result ClockDecision
observe_time_read_only deps reading boot_epoch max_step s =
    evaluate deps reading boot_epoch max_step s.tables.clock_state >>>= λ d.
    ok (decision reading boot_epoch d)

unfoldable pub repair_body : ℕ → Tx Tables (ClockDecision × Option SignAudit)
repair_body accepted = do
  prior ← ok_or (← gets (λ t. t.clock_state)) code_untrusted
  reject_if (ltb accepted prior.last_effective_ms) clock_rollback
  boot_epoch ← ok_or prior.boot_epoch malformed_frame
  let reading : PlatformTimeReading = record {
    utc_ms = some accepted;
    monotonic_elapsed_ms = 0;
    monotonic_anchor_ns = prior.monotonic_anchor_ns;
  }
  modify (write_clock_state accepted repaired reading boot_epoch)
  pure (
    record {
      effective_now_ms = accepted;
      condition = repaired;
      observed_utc_ms = some accepted;
      monotonic_anchor_ns = prior.monotonic_anchor_ns;
      boot_epoch = boot_epoch;
    },
    some (clock_repaired prior.last_effective_ms (audit_of reading boot_epoch accepted)),
  )

-- `repair_clock`
unfoldable pub repair_clock : Deps → ℕ → Engine → Result ClockDecision × Engine
repair_clock deps accepted s = mutation_transaction deps (repair_body accepted) s
