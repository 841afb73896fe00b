-- ===== src/Registry/Prepare.antt =====
-- `prepare_allocation_at` and `prepare_allocation` of
-- crates/bloom-signer/src/derivation_registry.rs, block by block.
use bloom_signer.Prelude.{
  ℕ, ◌+◌, ◌-◌, ◌^◌, Bool, true, false, ◌&&◌, ◌||◌, not, List, [], ◌∷◌, map, Option, none, some,
  ◌==◌, ltb, leb, if◌then◌else◌, bytes_eq, find?, any, count_where, update_where, rows_where,
  max_of, max,
}
use bloom_signer.Prelude.Result.{
  Result, ok, err, panic, malformed_frame, operation_id_conflict, limit_exceeded_operations,
  service_unavailable, backend_invalid_request, reject_if as reject_when, ◌>>◌ as ◌>>>◌,
}
use bloom_signer.Prelude.Tx.{Tx, ◌>>=◌, ◌>>◌, pure, gets, modify, lift, reject_if, ok_or, transact}
use bloom_signer.Derive.Walk.{Walk, found, panicked, out_of_fuel, next_valid_index}
use bloom_signer.Registry.Path.{
  Profile, evm, solana, profile_eq, resolve_canonical_path, key_spec_for_profile,
}
use bloom_signer.Registry.Types.{
  prepared, tombstoned, state_eq, TombstoneReason, AuditKind, Namespace, Allocation, Tombstone,
  Registry, Env, Reservation, is_namespace, in_namespace, is_tombstone, as_u32,
}
use bloom_signer.Registry.Events.{append_event}
use bloom_signer.Registry.Tables.{
  load_allocation, ensure_namespace, add_tombstone, record_invalid_child_tombstone,
  insert_allocation, record_audit,
}

-- `1_u32 << 31`
abbrev pub child_limit : ℕ
child_limit = 2 ^ 31

abbrev pub is_some_and : Option ℕ → (ℕ → Bool) → Bool
is_some_and none test = false
is_some_and (some n) test = test n

abbrev pub is_none_or : Option ℕ → (ℕ → Bool) → Bool
is_none_or none test = true
is_none_or (some n) test = test n

-- What a call asks for.
pub record Request : Type 0 where
  pub wallet_id : ℕ
  pub profile : Profile
  pub role : ℕ
  pub account : Option ℕ
  pub target_index : Option ℕ
  pub operation_id : ℕ

unfoldable pub check_request : Request → Result (Unit {0})
check_request q =
    reject_when (is_some_and q.account (leb child_limit)) malformed_frame
    >>> reject_when (is_some_and q.target_index (leb child_limit)) malformed_frame
    >>> reject_when (is_some_and q.target_index (λ _. not (profile_eq q.profile evm)))
        malformed_frame

-- The retry of an operation id that has a row already.
unfoldable pub is_same_request : Request → Allocation → Bool
is_same_request q row =
    profile_eq row.profile q.profile
    && row.role == q.role
    && is_none_or q.account (λ account. row.account == account)
    && is_none_or q.target_index (λ index. row.index == index)

unfoldable pub existing_reservation : Request → Allocation → Reservation
existing_reservation q row = record {
  operation_id = q.operation_id;
  profile = row.profile;
  role = row.role;
  account = as_u32 row.account;
  index = as_u32 row.index;
  path = row.path;
  state = row.state;
}

unfoldable pub retry_existing : Request → Allocation → Result Reservation
retry_existing q row =
    if is_same_request q row then ok (existing_reservation q row) else err operation_id_conflict

unfoldable pub in_profile : ℕ → Profile → Allocation → Bool
in_profile wallet profile row = row.wallet_id == wallet && profile_eq row.profile profile

-- `SELECT MAX(account)` over every lifecycle.
unfoldable pub highest_account : ℕ → Profile → Registry → Option ℕ
highest_account wallet profile r =
    max_of (map (λ row. row.account) (rows_where (in_profile wallet profile) r.allocations))

unfoldable pub next_account : Option ℕ → Result ℕ
next_account none = ok 0
next_account (some highest) =
    if ltb highest (child_limit - 1) then ok (highest + 1) else err limit_exceeded_operations

unfoldable pub choose_account : Request → Registry → Result ℕ
choose_account q r = elim q.account [
  | some account ↦ ok account
  | none ↦
      if profile_eq q.profile solana
      then next_account (highest_account q.wallet_id q.profile r)
      else ok 0
]

unfoldable pub is_live_in : Request → ℕ → Allocation → Bool
is_live_in q account row =
    in_namespace q.wallet_id q.profile q.role account row && not (state_eq row.state tombstoned)

unfoldable pub check_capacity : Request → ℕ → Namespace → Registry → Result (Unit {0})
check_capacity q account namespace r =
    reject_when (leb namespace.maximum_children (count_where (is_live_in q account) r.allocations))
      limit_exceeded_operations

unfoldable pub is_dead : Request → ℕ → Registry → ℕ → Bool
is_dead q account r index =
    any (is_tombstone q.wallet_id q.profile q.role account index) r.tombstones

-- The index with the indices that were skipped on the way, or an explicit target that is an
-- invalid child.
pub data Choice : Type 0 where
  chosen : ℕ → List ℕ → Choice
  invalid_target : ℕ → Choice

unfoldable pub walk_choice : Walk → Result Choice
walk_choice (found index skipped) = ok (chosen index skipped)
walk_choice panicked = panic
walk_choice out_of_fuel = panic

unfoldable pub target_choice : Bool → Bool → ℕ → Result Choice
target_choice dead invalid index =
    if dead
    then err operation_id_conflict
    else if invalid
    then ok (invalid_target index)
    else ok (chosen index [])

-- The index for a target, or for none the walk from the counter.
unfoldable pub choose_index_at :
    Request → (ℕ → ℕ → Bool) → ℕ → ℕ → Registry → Option ℕ → Result Choice
choose_index_at q invalid_child account counter r none = walk_choice (
    next_valid_index counter
      (λ candidate. is_dead q account r candidate || invalid_child account candidate))
choose_index_at q invalid_child account counter r (some index) =
    target_choice (is_dead q account r index) (invalid_child account index) index

unfoldable pub choose_index : Request → (ℕ → ℕ → Bool) → ℕ → ℕ → Registry → Result Choice
choose_index q invalid_child account counter r =
    choose_index_at q invalid_child account counter r q.target_index

unfoldable pub has_path : ℕ → Profile → List ℕ → Allocation → Bool
has_path wallet profile path row =
    row.wallet_id == wallet && profile_eq row.profile profile && bytes_eq row.path path

unfoldable pub add_skipped : Request → ℕ → ℕ → List ℕ → List Tombstone → List Tombstone
add_skipped q account now [] rows = rows
add_skipped q account now (index ∷ skipped) rows = add_skipped q account now skipped (
    add_tombstone q.wallet_id q.profile q.role account TombstoneReason.invalid_child now index rows)

unfoldable pub raise_counter : ℕ → Namespace → Namespace
raise_counter start row = record row { next_index = max row.next_index (start + 1) }

unfoldable pub set_counter : ℕ → Namespace → Namespace
set_counter start row = record row { next_index = start + 1 }

unfoldable pub advance_counter_at : Request → ℕ → ℕ → ℕ → List Namespace → Option ℕ → List Namespace
advance_counter_at q account counter start rows (some _) =
    update_where (is_namespace q.wallet_id q.profile q.role account) (raise_counter start) rows
advance_counter_at q account counter start rows none =
    update_where
      (λ row. is_namespace q.wallet_id q.profile q.role account row && row.next_index == counter)
      (set_counter start) rows

unfoldable pub advance_counter : Request → ℕ → ℕ → ℕ → List Namespace → List Namespace
advance_counter q account counter start rows =
    advance_counter_at q account counter start rows q.target_index

-- The reservation itself, once the index is chosen.
unfoldable pub reserve : Env → Request → ℕ → ℕ → ℕ → ℕ → List ℕ → Tx Registry (Result Reservation)
reserve env q now account counter start skipped = do
  path ← lift (resolve_canonical_path q.profile account start)
  owned ← gets (λ r. any (has_path q.wallet_id q.profile path) r.allocations)
  reject_if owned operation_id_conflict
  modify (λ r. record r { tombstones = add_skipped q account now skipped r.tombstones })
  modify (λ r. record r { namespaces = advance_counter q account counter start r.namespaces })
  key_spec ← lift (key_spec_for_profile q.profile)
  insert_allocation (record {
    wallet_id = q.wallet_id;
    operation_id = q.operation_id;
    profile = q.profile;
    role = q.role;
    account = account;
    index = start;
    path = path;
    state = prepared;
    key_spec = key_spec;
    public_key_spki_der = none;
    public_key_fingerprint = none;
    authority_committed = false;
    created_at_ms = now;
    updated_at_ms = now;
  })
  modify (append_event env q.wallet_id q.operation_id none prepared now)
  record_audit env (record {
    event_type = AuditKind.derivation_prepared;
    wallet_id = q.wallet_id;
    operation_id = q.operation_id;
    profile = q.profile;
    role = q.role;
    account = account;
    index = start;
    path = path;
    from_state = none;
    to_state = prepared;
  })
  pure (
      ok (record {
        operation_id = q.operation_id;
        profile = q.profile;
        role = q.role;
        account = account;
        index = start;
        path = path;
        state = prepared;
      }))

-- What follows the choice of an index. An invalid target commits its tombstone and reports.
unfoldable pub act_on_choice : Env → Request → ℕ → ℕ → ℕ → Choice → Tx Registry (Result Reservation)
act_on_choice env q now account counter (chosen start skipped) =
    reserve env q now account counter start skipped
act_on_choice env q now account counter (invalid_target index) = do
  modify (record_invalid_child_tombstone q.wallet_id q.profile q.role account now index)
  pure (err backend_invalid_request)

-- The transaction for an operation id that has no row.
unfoldable pub prepare_new : Env → Request → (ℕ → ℕ → Bool) → ℕ → Tx Registry (Result Reservation)
prepare_new env q invalid_child now = do
  account ← (λ r. lift (choose_account q r) r)
  ensure_namespace q.wallet_id q.profile q.role account
  row ← gets (λ r. find? (is_namespace q.wallet_id q.profile q.role account) r.namespaces)
  namespace ← ok_or row service_unavailable
  (λ r. lift (check_capacity q account namespace r) r)
  let counter = as_u32 namespace.next_index
  choice ← (λ r. lift (choose_index q invalid_child account counter r) r)
  act_on_choice env q now account counter choice

unfoldable pub prepare_body :
    Env → Request → (ℕ → ℕ → Bool) → ℕ → Option Allocation → Tx Registry (Result Reservation)
prepare_body env q invalid_child now (some row) = pure (retry_existing q row)
prepare_body env q invalid_child now none = prepare_new env q invalid_child now

unfoldable pub prepare_allocation_at :
    Env → Request → (ℕ → ℕ → Bool) → ℕ → Registry → Result Reservation × Registry
prepare_allocation_at env q invalid_child now = transact do
  lift (check_request q)
  row ← gets (load_allocation q.wallet_id q.operation_id)
  prepare_body env q invalid_child now row

-- `prepare_allocation`: no explicit index.
unfoldable pub prepare_allocation :
    Env → Request → (ℕ → ℕ → Bool) → ℕ → Registry → Result Reservation × Registry
prepare_allocation env q = prepare_allocation_at env (record q { target_index = none })
