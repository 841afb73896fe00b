-- ===== src/Signing/RevocationTests.antt =====
-- The theorems on revocations and the clock of crates/bloom-signer/src/engine.rs at small inputs.
use bloom_signer.Prelude.{
  ℕ, ◌≤◌, ◌≡◌, ◌≢◌, refl, sym, ap, max, Option, true, false, List, [], ◌∷◌, none, some, arith,
}
use bloom_signer.Prelude.Result.{Result, ok, err, operation_id_conflict}
use bloom_signer.Signing.Revocation.{
  ApprovalTombstone, RevocationState, RevocationRequest, approval_request, wallet_request,
}
use bloom_signer.Signing.State.{
  healthy, new_operation, ClockState, PlatformTimeReading, DurableDecision, Engine, Deps,
}
use bloom_signer.Signing.Authorize.{authorize_sign}
use bloom_signer.Registry.Path.{codes}
use bloom_signer.Signing.Revoke.{revoke_approval, deactivated}
use bloom_signer.Signing.Clock.{observe_time_read_only}
use bloom_signer.Signing.Calls.{Call, authorize, observe, repair, revoke, revoke_wallet, run, step}
use bloom_signer.Signing.History.{run-IsConsistent}
use bloom_signer.Signing.Enforced.{IsEnforced}
use bloom_signer.Signing.Floor.{KeepsFloor, IsAbove, run-clock_floor, observe_time-read_only}
use bloom_signer.Signing.Final.{run-IsEnforced, revoke_approval-final, revoke_all-final}
use bloom_signer.Signing.Idempotent.{revoke_approval-retry, revoke_approval-conflict}
use bloom_signer.Signing.Samples.{
  or_zero, running, sample_deps, sample_terms, sample_approval, sample_engine, sample_request,
  sample_clock, sample_engine-IsConsistent,
}

abbrev tombstone : ApprovalTombstone
tombstone = record {
  approval_id = 4;
  wallet_id = 1;
  wallet_revocation_epoch = 0;
  reason = 8 ∷ [];
  operation_id = 50;
  revoked_at_ms = 600;
  issuer_service_id = codes "bloom-signer";
  key_id = 2;
  signature = 7 ∷ [];
}

abbrev revoked_once : Engine
revoked_once = step sample_deps (revoke 4 (8 ∷ []) 50 600) sample_engine

abbrev wallet_revoked_once : Engine
wallet_revoked_once = step sample_deps (revoke_wallet 1 60 700) sample_engine

abbrev later_calls : List Call
later_calls =
    authorize (sample_request 20 30) sample_clock
    ∷ revoke_wallet 1 60 700
    ∷ observe reading 1 10 false
    ∷ []
  where
    reading : PlatformTimeReading
    reading = record { utc_ms = some 900; monotonic_elapsed_ms = 0; monotonic_anchor_ns = 1 }

sample_engine-IsEnforced : IsEnforced sample_engine.tables
sample_engine-IsEnforced = record { tombstones = tt; results = tt }

run-IsEnforced_example : IsEnforced (run sample_deps later_calls revoked_once).tables
unfolding running
run-IsEnforced_example =
    run-IsEnforced sample_deps (revoke 4 (8 ∷ []) 50 600 ∷ later_calls) sample_engine
      sample_engine-IsConsistent sample_engine-IsEnforced

revoke_approval-final_example :
    authorize_sign sample_deps
      (sample_request 21 31)
      sample_clock
      (run sample_deps later_calls revoked_once)
    ≢ (ok new_operation, sample_engine)
unfolding running
revoke_approval-final_example =
    revoke_approval-final sample_deps 4 (8 ∷ []) 50 600 sample_engine revoked_once sample_engine
      tombstone (sample_request 21 31) sample_clock new_operation sample_engine-IsConsistent
      sample_engine-IsEnforced refl refl later_calls

abbrev wallet_state_once : RevocationState
wallet_state_once = record {
  wallet_id = 1;
  wallet_revocation_epoch = 1;
  wallet_tombstone = some (record {
    wallet_id = 1;
    wallet_revocation_epoch = 1;
    operation_id = 60;
    revoked_at_ms = 700;
    issuer_service_id = codes "bloom-signer";
    key_id = 2;
    signature = 7 ∷ [];
  });
  approval_tombstone_digest = 0;
  approval_tombstone_count = 0;
  observed_at_ms = 700;
  issuer_service_id = codes "bloom-signer";
  key_id = 2;
  signature = 7 ∷ [];
}

revoke_all-final_example :
    authorize_sign sample_deps
      (sample_request 21 31)
      sample_clock
      (run sample_deps later_calls wallet_revoked_once)
    ≢ (ok new_operation, sample_engine)
unfolding running
revoke_all-final_example =
    revoke_all-final sample_deps 1 60 700 sample_engine wallet_revoked_once sample_engine
      wallet_state_once (sample_request 21 31) sample_clock new_operation
      (deactivated sample_approval) sample_terms sample_engine-IsConsistent sample_engine-IsEnforced
      refl later_calls refl refl refl (omega arith)

revoke_approval-retry_example :
    revoke_approval sample_deps 4 (8 ∷ []) 50 600 (run sample_deps later_calls revoked_once)
    ≡ (ok tombstone, run sample_deps later_calls revoked_once)
unfolding running
revoke_approval-retry_example =
    revoke_approval-retry sample_deps 4 (8 ∷ []) 50 600 50 sample_engine revoked_once tombstone
      later_calls sample_engine-IsConsistent refl refl refl refl refl

-- A digest of the request that tells approvals apart.
abbrev telling_deps : Deps
telling_deps = record sample_deps { request_digest = approval_number }
  where
    approval_number : RevocationRequest → Result ℕ
    approval_number (approval_request approval reason operation at) = ok approval
    approval_number (wallet_request wallet operation at) = ok operation

revoke_approval-conflict_example :
    revoke_approval telling_deps 5
      (8 ∷ [])
      50
      600
      (step telling_deps (revoke 4 (8 ∷ []) 50 600) sample_engine)
    ≡ (err operation_id_conflict, step telling_deps (revoke 4 (8 ∷ []) 50 600) sample_engine)
unfolding running
revoke_approval-conflict_example =
    revoke_approval-conflict telling_deps 4 5 (8 ∷ []) (8 ∷ []) 50 600 600 4 5 sample_engine
      (step telling_deps (revoke 4 (8 ∷ []) 50 600) sample_engine) tombstone []
      sample_engine-IsConsistent refl refl refl five_four refl refl refl
  where
    five_four : ◌≢◌ {A = ℕ} 5 4
    five_four e = ground arith

abbrev reading_at : ℕ → PlatformTimeReading
reading_at utc = record { utc_ms = some utc; monotonic_elapsed_ms = 0; monotonic_anchor_ns = 1 }

abbrev observed_once : Engine
observed_once = step sample_deps (observe (reading_at 900) 1 10 false) sample_engine

clock_floor-KeepsFloor : KeepsFloor sample_deps
clock_floor-KeepsFloor prior reading epoch max_step d e =
    let k : max prior.last_effective_ms (or_zero reading.utc_ms) ≡ d.effective_now_ms =
      ap effective e in
    rw (sym k) (left_of prior.last_effective_ms (or_zero reading.utc_ms))
  where
    effective : Option DurableDecision → ℕ
    effective none = 0
    effective (some d) = d.effective_now_ms

    left_of : (m n : ℕ) → m ≤ max m n
    left_of m n = omega arith

run-clock_floor_example :
    IsAbove 900
      (run sample_deps (observe (reading_at 100) 1 10 false ∷ repair 950 ∷ []) observed_once).tables
unfolding running
run-clock_floor_example =
    run-clock_floor 900 sample_deps (observe (reading_at 100) 1 10 false ∷ repair 950 ∷ [])
      observed_once clock_floor-KeepsFloor
      (run-IsConsistent sample_deps (observe (reading_at 900) 1 10 false ∷ []) sample_engine
        sample_engine-IsConsistent)
      (_, refl, omega arith)

observe_time-read_only_example :
    (observe_time_read_only sample_deps (reading_at 900) 1 10 sample_engine
      ≡ ok (record {
        effective_now_ms = 900;
        condition = healthy;
        observed_utc_ms = some 900;
        monotonic_anchor_ns = 1;
        boot_epoch = 1;
      }))
    × (row : ClockState) × (observed_once.tables.clock_state ≡ some row)
    × (row.last_effective_ms ≡ 900)
    × (row.condition ≡ healthy)
    × (row.boot_epoch ≡ some 1)
unfolding running
observe_time-read_only_example =
    observe_time-read_only sample_deps (reading_at 900) 1 10 true sample_engine observed_once _ refl
