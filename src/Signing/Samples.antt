-- ===== src/Signing/Samples.antt =====
-- Small inputs of the signing part of crates/bloom-signer/src/engine.rs, and all that their runs unfold.
use bloom_signer.Prelude.{
  ◌≤◌, arith, refl, max, Option, ℕ, zero, suc, true, false, List, [], ◌∷◌, none, some, bytes_eq,
  find?, any, count_where, update_where, rows_where,
}
use bloom_signer.Prelude.Result.{Result, ok}
use bloom_signer.Prelude.Tx.{bind, lift, reject_if, ok_or}
use bloom_signer.Registry.Path.{secp256k1, codes, profile_eq}
use bloom_signer.Signing.Terms.{SealedApprovalTerms, exact_selector, cli_subject}
use bloom_signer.Signing.Request.{
  suite_eq, derivation_eq, some_derivation_eq, key_spec_eq, key_ref_eq, operation_identity,
  computed_attempt_digest, all_messages_bound, messages_are_bound, validate_shape,
  retry_binding_digest, exact, secp256k1_keccak256_recoverable, KeyRef, SignRequest,
}
use bloom_signer.Signing.Revocation.{RevocationRequest, approval_request, wallet_request}
use bloom_signer.Signing.State.{
  state_eq, is_petal_class, audited, commit, transaction_at, mutation_transaction, is_approval,
  is_attempt, is_operation, is_anchor, is_key, is_scope, is_wallet, healthy, Engine, Deps,
  ClockDecision, Approval, other_class, PersistedClockState, PlatformTimeReading, DurableDecision,
  durable_healthy,
}
use bloom_signer.Signing.Checks.{
  verify_broker_signature, is_some, selector_matches, validate_against_approval, enrolled_as,
  is_enrolled_petal, has_fingerprint, is_derived_account, is_activated, check_derived_account,
  check_enrolled, require_key_available, epoch_of, wallet_epoch,
}
use bloom_signer.Signing.Petal.{
  contains, allows_suite, is_empty, differs_from, exceeds_classes, grant_exceeds, check_selector,
  check_subject, scope_bound, check_scope, check_scope_row, validate_petal_key_approval,
}
use bloom_signer.Signing.Limits.{
  checked_add, cast_integer, is_live, in_window, window_start, exceeds, check_operation_window,
  check_operation_windows, checked_sum, check_signature_window, check_signature_windows,
  next_counters, reserve_parser_free_limits,
}
use bloom_signer.Signing.Authorize.{
  check_request, check_retry_state, check_retry, reserve_operation, retry_or_reserve,
  check_approval, authorization_event, authorize_body, authorize_after, authorize_sign,
}
use bloom_signer.Signing.Effects.{
  is_in_state, is_open, update_one, dispatch_body, mark_operation_dispatched, result_body,
  commit_operation_result, may_finalize, give_back, release_counters, finalize_row, finalize_body,
  finalize_operation, public_state, parsed_result, operation_status, result_of,
  stored_operation_result,
}
use bloom_signer.Signing.Revoke.{
  is_revocation, is_approval_tombstone, of_wallet, is_wallet_tombstone, belongs_to,
  as_approval_result, as_wallet_result, loaded, load_revocation_operation,
  store_revocation_operation, reconcile, revoke_new, revoke_found, revoke_unless, revoke_body,
  revoke_after, revoke_approval, put_epoch, put_wallet_tombstone, insert_by_id, order_by_id,
  approval_tombstones, signed_state, revoke_all_new, revoke_all_unless, revoke_all_body,
  revoke_all_after, revoke_all,
}
use bloom_signer.Signing.Clock.{
  comparable_boot_epoch, signer_clock_condition, persisted, evaluate, write_clock_state, answer,
  clock_event, is_missing, observe_body, flatten, observe_time, observe_time_read_only, repair_body,
  repair_clock,
}
use bloom_signer.Signing.Counted.{IsConsistent}
use bloom_signer.Signing.History.{run-IsConsistent}
use bloom_signer.Signing.Totals.{share, signature_share, total}
use bloom_signer.Signing.Calls.{authorize, dispatch, step, run}

-- All that a run computes with.
unfoldable pub running : Unit {0}
unfolding bytes_eq find? any count_where update_where rows_where bind lift reject_if ok_or
    profile_eq suite_eq derivation_eq some_derivation_eq key_spec_eq key_ref_eq operation_identity
    computed_attempt_digest all_messages_bound messages_are_bound validate_shape
    retry_binding_digest state_eq is_petal_class audited commit transaction_at mutation_transaction
    is_approval is_attempt is_operation is_anchor is_key is_scope is_wallet verify_broker_signature
    is_some selector_matches validate_against_approval enrolled_as is_enrolled_petal has_fingerprint
    is_derived_account is_activated check_derived_account check_enrolled require_key_available
    epoch_of wallet_epoch contains allows_suite is_empty differs_from exceeds_classes grant_exceeds
    check_selector check_subject scope_bound check_scope check_scope_row validate_petal_key_approval
    checked_add cast_integer is_live in_window window_start exceeds check_operation_window
    check_operation_windows checked_sum check_signature_window check_signature_windows next_counters
    reserve_parser_free_limits check_request check_retry_state check_retry reserve_operation
    retry_or_reserve check_approval authorization_event authorize_body authorize_after
    authorize_sign is_in_state is_open update_one dispatch_body mark_operation_dispatched
    result_body commit_operation_result may_finalize give_back release_counters finalize_row
    finalize_body finalize_operation public_state parsed_result operation_status result_of
    stored_operation_result share signature_share total step run is_revocation is_approval_tombstone
    of_wallet is_wallet_tombstone belongs_to as_approval_result as_wallet_result loaded
    load_revocation_operation store_revocation_operation reconcile revoke_new revoke_found
    revoke_unless revoke_body revoke_after revoke_approval put_epoch put_wallet_tombstone
    insert_by_id order_by_id approval_tombstones signed_state revoke_all_new revoke_all_unless
    revoke_all_body revoke_all_after revoke_all comparable_boot_epoch signer_clock_condition
    persisted evaluate write_clock_state answer clock_event is_missing observe_body flatten
    observe_time observe_time_read_only repair_body repair_clock
running = tt

abbrev pub repeat : ℕ → List ℕ
repeat zero = []
repeat (suc n) = 0 ∷ repeat n

abbrev pub or_zero : Option ℕ → ℕ
or_zero none = 0
or_zero (some n) = n

abbrev pub request_number : RevocationRequest → Result ℕ
request_number (approval_request approval reason operation at) = ok operation
request_number (wallet_request wallet operation at) = ok operation

-- A clock that never goes below what is stored.
abbrev pub clock_floor :
    Option PersistedClockState → PlatformTimeReading → Option ℕ → ℕ → Option DurableDecision
clock_floor none reading epoch step =
    some (record { effective_now_ms = or_zero reading.utc_ms; condition = durable_healthy })
clock_floor (some prior) reading epoch step = some (record {
  effective_now_ms = max prior.last_effective_ms (or_zero reading.utc_ms);
  condition = durable_healthy;
})

abbrev pub sample_deps : Deps
sample_deps = record {
  hashes = record {
    sha256 = λ message. 0;
    operation_digest = λ identity. ok identity.operation_id;
    attempt_jcs_digest = λ u. ok u.attempt_id;
    retry_jcs_digest = λ u. ok u.operation_id;
  };
  hex_decode = λ digest. some (digest ∷ []);
  broker_key_id = 1;
  broker_verify = λ digest signature. true;
  key_ref_jcs = λ key_ref. some key_ref.public_key_fingerprint;
  key_is_available = λ key_ref. ok true;
  audit_verifies = λ entries. true;
  append_audit = λ event entries. some (event ∷ entries);
  revocation_key_id = 2;
  request_digest = request_number;
  sign_record = λ record_to_sign. ok (7 ∷ []);
  tombstones_digest = λ tombstones. ok 0;
  evaluate_durable_clock = clock_floor;
}

abbrev pub sample_key : KeyRef
sample_key = record {
  backend = 1;
  backend_instance = 1;
  locator = 1;
  key_spec = secp256k1;
  public_key_fingerprint = 9 ∷ [];
  derivation = none;
}

abbrev pub sample_terms : SealedApprovalTerms
sample_terms = record {
  subject = cli_subject 1 1;
  wallet_id = 1;
  key_ref = sample_key;
  allowed_crypto_suites = secp256k1_keccak256_recoverable ∷ [];
  selector = exact_selector (6 ∷ []) (5 ∷ []);
  limits = record {
    max_operations = 2;
    max_signatures = 2;
    operation_rate_limits = record { maximum = 2; duration_ms = 100 } ∷ [];
    signature_rate_limits = record { maximum = 2; duration_ms = 100 } ∷ [];
    value_limits = [];
  };
  wallet_revocation_epoch = 0;
  policy_version = 1;
  policy_digest = 1;
  not_before_ms = 0;
  expires_at_ms = 2000;
}

abbrev pub sample_approval : Approval
sample_approval = record {
  approval_id = 4;
  wallet_id = 1;
  terms = some sample_terms;
  active = true;
  committed_operations = 0;
  committed_signatures = 0;
}

abbrev pub sample_engine : Engine
sample_engine = record {
  tables = record {
    approvals = sample_approval ∷ [];
    attempts = [];
    operations = [];
    anchors = [];
    enrolled_keys =
        record {
          key_fingerprint = 9 ∷ [];
          key_ref_jcs = 9 ∷ [];
          available = true;
          authority_class = other_class 0;
        }
        ∷ [];
    petal_key_scopes = [];
    wallet_states = [];
    derivation_allocations = [];
    approval_tombstones = [];
    wallet_tombstones = [];
    revocation_operations = [];
    clock_state = none;
    audit = [];
  };
  audit_degraded = false;
}

abbrev pub sample_request : ℕ → ℕ → SignRequest
sample_request operation attempt = record {
  unsigned = record {
    schema = codes "bloom.sign-request/1";
    attempt_id = attempt;
    operation_id = operation;
    operation_digest = operation;
    attempt_digest = attempt;
    audience = codes "bloom-signer";
    issuer_service_id = codes "bloom-broker";
    issuer_boot_epoch = 1;
    broker_signing_key_id = 1;
    approval_id = 4;
    wallet_id = 1;
    key_ref = sample_key;
    crypto_suite = secp256k1_keccak256_recoverable;
    selector_kind = exact;
    ordered_payload_digests = 6 ∷ [];
    ordered_hashes = 5 ∷ [];
    ordered_messages = [];
    signature_count = 1;
    petal_use_claim_digest = none;
    claim_assurance_digest = none;
    policy_version = 1;
    policy_digest = 1;
    validation_receipt_digest = 1;
    issued_at_ms = 0;
    not_before_ms = 0;
    expires_at_ms = 1000;
  };
  broker_signature = repeat 64;
}

abbrev pub sample_clock : ClockDecision
sample_clock = record {
  effective_now_ms = 500;
  condition = healthy;
  observed_utc_ms = some 500;
  monotonic_anchor_ns = 1;
  boot_epoch = 1;
}

abbrev pub authorized_once : Engine
authorized_once = step sample_deps (authorize (sample_request 20 30) sample_clock) sample_engine

abbrev pub dispatched_once : Engine
dispatched_once = step sample_deps (dispatch 20 sample_key []) authorized_once

one_approval : (id : ℕ) → count_where (is_approval id) (sample_approval ∷ []) ≤ 1
unfolding count_where is_approval
one_approval id = ground arith

pub sample_engine-IsConsistent : IsConsistent sample_engine.tables
unfolding running
sample_engine-IsConsistent = record {
  unique_operations = λ id. omega arith;
  unique_approvals = one_approval;
  approvals_within = (
    record {
      operations_counted = refl;
      signatures_counted = refl;
      within = λ terms e. (omega arith, omega arith);
    },
    tt,
  );
}

pub dispatched_once-IsConsistent : IsConsistent dispatched_once.tables
unfolding running
dispatched_once-IsConsistent =
    run-IsConsistent sample_deps
      (authorize (sample_request 20 30) sample_clock ∷ dispatch 20 sample_key [] ∷ []) sample_engine
      sample_engine-IsConsistent
