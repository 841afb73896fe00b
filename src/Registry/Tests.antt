-- ===== src/Registry/Tests.antt =====
-- Runs of crates/bloom-signer/src/derivation_registry.rs at small inputs, and the theorems of the
-- registry at inputs that meet their hypotheses.
use Prim.Native.Nat.{ℕ}
use bloom_signer.Prelude.{
  ◌≡◌, ◌≢◌, ◌==◌, ◌+◌, ◌^◌, ◌≤◌, All, refl, Bool, true, false, List, [], ◌∷◌, none, some, arith,
  ltb, bytes_eq, find?, any, count_where, update_where, rows_where, max_of, last_row,
}
use bloom_signer.Prelude.Result.{ok}
use bloom_signer.Prelude.Tx.{bind, lift, reject_if, ok_or}
use bloom_signer.Derive.Walk.{out_of_fuel, walk_from, next_valid_index}
use bloom_signer.Derive.WalkLaws.{Walked, next_valid_index-Walked}
use bloom_signer.Registry.Accounts.{
  evm_namespace, evm_tombstone, account_candidate, next_account_number, next_account_number_fresh,
}
use bloom_signer.Registry.Path.{
  evm, solana, profile_eq, low_digits, decimal, resolve_canonical_path, key_spec_for_profile,
  secp256k1, codes,
}
use bloom_signer.Registry.Types.{
  Allocation, Registry, Env, Reservation, prepared, retired, state_eq, state_text, is_operation,
  is_namespace, in_namespace, is_tombstone,
}
use bloom_signer.Registry.Events.{
  zeros, genesis_hash, or_dash, event_preimage, previous_hash_of, event_row, append_event,
  verify_from, verify_event_chain,
}
use bloom_signer.Registry.Tables.{
  load_allocation, state_of, add_namespace, ensure_namespace, add_tombstone,
  record_invalid_child_tombstone, collides, insert_allocation, record_audit, reservation,
  reservation_of,
}
use bloom_signer.Registry.Prepare.{
  Request, check_request, is_same_request, existing_reservation, retry_existing, in_profile,
  highest_account, next_account, choose_account, is_live_in, check_capacity, is_dead, walk_choice,
  target_choice, choose_index_at, choose_index, has_path, add_skipped, raise_counter, set_counter,
  advance_counter_at, advance_counter, reserve, act_on_choice, prepare_new, prepare_body,
  prepare_allocation_at,
}
use bloom_signer.Registry.Lifecycle.{
  is_in_state, update_in_state, set_state, transition, allocation_keys, transition_payload,
  audited_transition, commit_index_body, commit_index, set_descriptor, check_descriptor,
  commit_account_body, commit_account, public_of, activate_body, activate, retire, tombstone_reason,
  tombstone_row, tombstone,
}
use bloom_signer.Registry.Run.{Call, step, run}
use bloom_signer.Registry.Chain.{run-IsChained}
use bloom_signer.Registry.Paths.{HasDistinctPaths, run-HasDistinctPaths}
use bloom_signer.Registry.Retry.{prepare-retry, IsSameReservation}
use bloom_signer.Registry.Tombstones.{tombstone-never_reused}

-- All that a run computes with.
running : Unit {0}
unfolding bytes_eq find? any count_where update_where rows_where max_of last_row bind lift reject_if
    ok_or walk_from next_valid_index profile_eq low_digits decimal resolve_canonical_path
    key_spec_for_profile state_eq state_text is_operation is_namespace in_namespace is_tombstone
    zeros genesis_hash or_dash event_preimage previous_hash_of event_row append_event verify_from
    verify_event_chain load_allocation state_of add_namespace ensure_namespace add_tombstone
    record_invalid_child_tombstone collides insert_allocation record_audit reservation
    reservation_of check_request is_same_request existing_reservation retry_existing in_profile
    highest_account next_account choose_account is_live_in check_capacity is_dead walk_choice
    target_choice choose_index_at choose_index has_path add_skipped raise_counter set_counter
    advance_counter_at advance_counter reserve act_on_choice prepare_new prepare_body
    prepare_allocation_at is_in_state update_in_state set_state transition allocation_keys
    transition_payload audited_transition commit_index_body commit_index set_descriptor
    check_descriptor commit_account_body commit_account public_of activate_body activate retire
    tombstone_reason tombstone_row tombstone step run evm_namespace evm_tombstone account_candidate
    next_account_number
running = tt

abbrev sample_env : Env
sample_env = record {
  text = λ n. n ∷ [];
  sha256_hex = λ s. s;
  hex_decode = λ s. some s;
  audit = λ event journal. ok (event ∷ journal);
}

abbrev no_rows : Registry
no_rows = record { namespaces = []; allocations = []; tombstones = []; events = []; journal = [] }

abbrev evm_request : ℕ → Request
evm_request operation = record {
  wallet_id = 1;
  profile = evm;
  role = 2;
  account = none;
  target_index = none;
  operation_id = operation;
}

-- Index 1 is an invalid child.
abbrev one_invalid : ℕ → ℕ → Bool
one_invalid account index = index == 1

abbrev reserved_once : Registry
reserved_once = step sample_env (Call.prepare (evm_request 10) one_invalid 5) no_rows

abbrev history : List Call
history =
    Call.prepare (evm_request 11) one_invalid 6
    ∷ Call.commit_index 1 11 7
    ∷ Call.commit_account 1 11 (1 ∷ []) (1 ∷ []) 8
    ∷ Call.activate 1 11 9
    ∷ Call.retire 1 11 10
    ∷ []

history_paths :
    (find? (is_operation 1 11) (run sample_env history reserved_once).allocations
      ≡ some (record {
        wallet_id = 1;
        operation_id = 11;
        profile = evm;
        role = 2;
        account = 0;
        index = 2;
        path = codes "m/44'/60'/0'/0/2";
        state = retired;
        key_spec = secp256k1;
        public_key_spki_der = some (1 ∷ []);
        public_key_fingerprint = some (1 ∷ []);
        authority_committed = false;
        created_at_ms = 6;
        updated_at_ms = 10;
      }))
    × (any (is_tombstone 1 evm 2 0 1) (run sample_env history reserved_once).tombstones ≡ true)
unfolding running
history_paths = (refl, refl)

next_valid_index-Walked_example :
    (next_valid_index 3 (λ n. ltb n 6) ≢ out_of_fuel)
    × Walked (λ n. ltb n 6) 3 [] (next_valid_index 3 (λ n. ltb n 6))
next_valid_index-Walked_example = next_valid_index-Walked 3 (λ n. ltb n 6) (omega arith)

run-IsChained_example : verify_event_chain sample_env (run sample_env history reserved_once) ≡ ok tt
unfolding running
run-IsChained_example = run-IsChained sample_env history reserved_once refl

run-HasDistinctPaths_example : HasDistinctPaths (run sample_env history reserved_once).allocations
unfolding running
run-HasDistinctPaths_example = run-HasDistinctPaths sample_env history reserved_once (refl, tt)

abbrev first_row : Allocation
first_row = record {
  wallet_id = 1;
  operation_id = 10;
  profile = evm;
  role = 2;
  account = 0;
  index = 0;
  path = codes "m/44'/60'/0'/0/0";
  state = prepared;
  key_spec = secp256k1;
  public_key_spki_der = none;
  public_key_fingerprint = none;
  authority_committed = false;
  created_at_ms = 5;
  updated_at_ms = 5;
}

abbrev third_reservation : Reservation
third_reservation = record {
  operation_id = 12;
  profile = evm;
  role = 2;
  account = 0;
  index = 3;
  path = codes "m/44'/60'/0'/0/3";
  state = prepared;
}

tombstone-never_reused_example : ◌≢◌ {A = ℕ} 3 0
unfolding running
tombstone-never_reused_example =
    tombstone-never_reused sample_env 1 10 20 first_row reserved_once
      (tombstone sample_env 1 10 20 reserved_once).1 history (evm_request 12) one_invalid 30
      (prepare_allocation_at sample_env (evm_request 12) one_invalid 30
        (run sample_env history (tombstone sample_env 1 10 20 reserved_once).1)).1
      third_reservation refl refl refl (refl, refl, refl) refl refl refl

abbrev first_reservation : Reservation
first_reservation = record {
  operation_id = 10;
  profile = evm;
  role = 2;
  account = 0;
  index = 0;
  path = codes "m/44'/60'/0'/0/0";
  state = prepared;
}

prepare-retry_example :
    (again : Reservation) × (prepare_allocation_at sample_env
        (evm_request 10)
        one_invalid
        40
        (run sample_env history reserved_once)
      ≡ (ok again, run sample_env history reserved_once))
    × IsSameReservation first_reservation again
unfolding running
prepare-retry_example =
    prepare-retry sample_env (evm_request 10) one_invalid one_invalid 5 40 no_rows reserved_once
      first_reservation refl refl history

next_account_number_fresh_example :
    (1 + 1 ≤ 2 ^ 31)
    × All (λ row. evm_namespace 1 row ≡ true → row.next_index ≤ 1) reserved_once.namespaces
    × All (λ row. evm_tombstone 1 row ≡ true → row.index + 1 ≤ 1) reserved_once.tombstones
    × All (λ row. in_profile 1 solana row ≡ true → row.account + 1 ≤ 1) reserved_once.allocations
unfolding running
next_account_number_fresh_example = next_account_number_fresh reserved_once 1 1 refl
