-- ===== src/Signing/Tests.antt =====
-- Runs of the signing part of crates/bloom-signer/src/engine.rs at small inputs, and its theorems at
-- inputs that meet their hypotheses.
use bloom_signer.Prelude.{rows_where, All, ◌≤◌, ◌≡◌, ◌≢◌, refl, List, [], ◌∷◌, none, some, find?}
use bloom_signer.Prelude.Result.{ok}
use bloom_signer.Signing.Terms.{SealedApprovalTerms}
use bloom_signer.Signing.State.{
  is_approval, is_operation, new_operation, released_effect, Engine, Approval, same_operation_retry,
  Operation, committed,
}
use bloom_signer.Signing.Authorize.{authorize_sign}
use bloom_signer.Signing.Effects.{mark_operation_dispatched, stored_operation_result}
use bloom_signer.Signing.Totals.{live_operations, live_signatures}
use bloom_signer.Signing.Calls.{step, run, Call, authorize, result, finalize}
use bloom_signer.Signing.History.{run-IsConsistent, run-within_limits}
use bloom_signer.Signing.Replay.{authorize_sign-after_dispatch}
use bloom_signer.Signing.Windows.{in_window_now, authorize_sign-within_windows}
use bloom_signer.Signing.Attempts.{authorize_sign-no_replay}
use bloom_signer.Signing.Once.{dispatch-at_most_once}
use bloom_signer.Signing.Durable.{run-finished, commit_operation_result-durable}
use bloom_signer.Signing.Counted.{IsConsistent}
use bloom_signer.Signing.Expiring.{
  insert_approval, order_approvals, expiring_of, IsExpiring, active_approvals_expiring_by,
  active_approvals_expiring_by-IsExpiring,
}
use bloom_signer.Signing.Samples.{
  dispatched_once-IsConsistent, running, sample_deps, sample_key, sample_terms, sample_approval,
  sample_engine, sample_request, sample_clock, authorized_once, dispatched_once,
}

abbrev history : List Call
history =
    authorize (sample_request 21 31) sample_clock
    ∷ authorize (sample_request 22 32) sample_clock
    ∷ finalize 20 released_effect
    ∷ authorize (sample_request 23 33) sample_clock
    ∷ result 21 (1 ∷ [])
    ∷ []

-- Two operations fit. The third is refused until the first is released.
history_counts :
    (live_operations 4 (run sample_deps history dispatched_once).tables.operations ≡ 2)
    × (find? (is_operation 22) (run sample_deps history dispatched_once).tables.operations ≡ none)
    × (stored_operation_result 21 (run sample_deps history dispatched_once).tables ≡ some (1 ∷ []))
unfolding running
history_counts = (refl, refl, refl)

abbrev final_approval : Approval
final_approval = record sample_approval { committed_operations = 2; committed_signatures = 2 }

run-within_limits_example :
    (live_operations 4 (run sample_deps history dispatched_once).tables.operations ≤ 2)
    × (live_signatures 4 (run sample_deps history dispatched_once).tables.operations ≤ 2)
    × (2 ≡ live_operations 4 (run sample_deps history dispatched_once).tables.operations)
    × (2 ≡ live_signatures 4 (run sample_deps history dispatched_once).tables.operations)
unfolding running
run-within_limits_example =
    run-within_limits sample_deps history dispatched_once 4 final_approval sample_terms
      dispatched_once-IsConsistent refl refl

dispatch-at_most_once_example :
    (mark_operation_dispatched sample_deps 20 sample_key []
      (run sample_deps history dispatched_once)).0
    ≢ ok tt
unfolding running
dispatch-at_most_once_example =
    dispatch-at_most_once sample_deps 20 sample_key sample_key [] [] authorized_once dispatched_once
      dispatched_once-IsConsistent refl history

abbrev stored_once : Engine
stored_once = run sample_deps (result 20 (1 ∷ []) ∷ []) dispatched_once

abbrev retried_once : Engine
retried_once = step sample_deps (authorize (sample_request 20 40) sample_clock) stored_once

authorize_sign-after_dispatch_example :
    (same_operation_retry ≡ same_operation_retry)
    × (row : Operation) × (find? (is_operation 20) stored_once.tables.operations ≡ some row)
    × (row.state ≡ committed)
unfolding running
authorize_sign-after_dispatch_example =
    authorize_sign-after_dispatch sample_deps sample_key [] (sample_request 20 40) sample_clock
      authorized_once dispatched_once retried_once same_operation_retry dispatched_once-IsConsistent
      refl (result 20 (1 ∷ []) ∷ []) refl

authorize_sign-no_replay_example :
    authorize_sign sample_deps
      (sample_request 23 30)
      sample_clock
      (run sample_deps history authorized_once)
    ≢ (ok new_operation, authorized_once)
unfolding running
authorize_sign-no_replay_example =
    authorize_sign-no_replay sample_deps (sample_request 20 30) (sample_request 23 30) sample_clock
      sample_clock sample_engine authorized_once authorized_once new_operation new_operation refl
      refl history

authorize_sign-within_windows_example :
    (a : Approval) × (terms : SealedApprovalTerms) × (find?
        (is_approval 4)
        sample_engine.tables.approvals
      ≡ some a)
    × (a.terms ≡ some terms)
    × All
        (λ window. in_window_now 4 500 authorized_once.tables.operations window ≤ window.maximum)
        terms.limits.operation_rate_limits
unfolding running
authorize_sign-within_windows_example =
    authorize_sign-within_windows sample_deps (sample_request 20 30) sample_clock sample_engine
      authorized_once new_operation refl refl

-- The row of an operation whose result is stored.
abbrev finished_row : Operation
finished_row = record {
  operation_id = 20;
  operation_digest = 20;
  retry_binding_digest = 20;
  approval_id = 4;
  signature_count = 1;
  accepted_at_ms = 500;
  state = committed;
  normalized_result = some (1 ∷ []);
}

stored_once-IsConsistent : IsConsistent stored_once.tables
unfolding running
stored_once-IsConsistent =
    run-IsConsistent sample_deps (result 20 (1 ∷ []) ∷ []) dispatched_once
      dispatched_once-IsConsistent

run-finished_example :
    find? (is_operation 20) (run sample_deps history stored_once).tables.operations
    ≡ some finished_row
unfolding running
run-finished_example =
    run-finished sample_deps history stored_once 20 finished_row stored_once-IsConsistent refl refl

commit_operation_result-durable_example :
    stored_operation_result 20 (run sample_deps history stored_once).tables ≡ some (1 ∷ [])
unfolding running
commit_operation_result-durable_example =
    commit_operation_result-durable sample_deps 20 (1 ∷ []) dispatched_once stored_once
      dispatched_once-IsConsistent refl history

-- The one approval is listed from its end on.
expiring_at_end : active_approvals_expiring_by 2000 sample_engine.tables ≡ ok (4 ∷ [])
unfolding active_approvals_expiring_by expiring_of order_approvals insert_approval rows_where
expiring_at_end = refl

active_approvals_expiring_by-IsExpiring_example :
    IsExpiring 2000 sample_engine.tables (active_approvals_expiring_by 2000 sample_engine.tables)
active_approvals_expiring_by-IsExpiring_example =
    active_approvals_expiring_by-IsExpiring 2000 sample_engine.tables
