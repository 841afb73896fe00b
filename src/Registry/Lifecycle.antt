-- ===== src/Registry/Lifecycle.antt =====
-- The transitions of an allocation after its reservation, and the public listing:
-- crates/bloom-signer/src/derivation_registry.rs from `commit_index` on.
use bloom_signer.Prelude.{
  ℕ, Bool, true, false, ◌&&◌, ◌||◌, not, List, some, if◌then◌else◌, bytes_eq, any, update_where,
}
use bloom_signer.Prelude.Result.{Result, malformed_frame}
use bloom_signer.Prelude.Tx.{
  Tx, ◌>>=◌, ◌>>◌, pure, fail, gets, modify, reject_if, ok_or, atomically,
}
use bloom_signer.Registry.Types.{
  AllocationState, prepared, index_committed, account_committed, activated, retired, tombstoned,
  state_eq, TombstoneReason, AuditKind, Allocation, Registry, Env, Reservation, PublicAccount,
  AuditEvent, is_operation, as_u32,
}
use bloom_signer.Registry.Events.{append_event}
use bloom_signer.Registry.Tables.{
  load_allocation, state_of, add_tombstone, record_audit, reservation_of,
}

-- `UPDATE derivation_allocations SET … WHERE wallet_id AND operation_id AND state = from`; the
-- primary key lets at most one row match, so the statement changes one row or none.
unfoldable pub is_in_state : ℕ → ℕ → AllocationState → Allocation → Bool
is_in_state wallet operation from row = is_operation wallet operation row && state_eq row.state from

unfoldable pub update_in_state :
    ℕ → ℕ → AllocationState → (Allocation → Allocation) → Tx Registry (Unit {0})
update_in_state wallet operation from change = do
  reject_if (not (← gets (λ r. any (is_in_state wallet operation from) r.allocations)))
      malformed_frame
  modify (λ r. record r {
    allocations = update_where (is_in_state wallet operation from) change r.allocations;
  })

unfoldable pub set_state : AllocationState → ℕ → Allocation → Allocation
set_state to now row = record row { state = to; updated_at_ms = now }

-- `transition`
unfoldable pub transition :
    Env → ℕ → ℕ → AllocationState → AllocationState → ℕ → Tx Registry (Unit {0})
transition env wallet operation from to now = do
  update_in_state wallet operation from (set_state to now)
  modify (append_event env wallet operation (some from) to now)

-- `allocation_keys`
unfoldable pub allocation_keys : ℕ → ℕ → Tx Registry Allocation
allocation_keys wallet operation = do
  ok_or (← gets (load_allocation wallet operation)) malformed_frame

-- The payload of `transition_payload` for a row.
unfoldable pub transition_payload :
    AuditKind → ℕ → ℕ → Allocation → AllocationState → AllocationState → AuditEvent
transition_payload kind wallet operation row from to = record {
  event_type = kind;
  wallet_id = wallet;
  operation_id = operation;
  profile = row.profile;
  role = row.role;
  account = as_u32 row.account;
  index = as_u32 row.index;
  path = row.path;
  from_state = some from;
  to_state = to;
}

-- The keys, the transition and the audit record, which three functions share.
unfoldable pub audited_transition :
    Env → AuditKind → ℕ → ℕ → AllocationState → AllocationState → ℕ → Tx Registry (Unit {0})
audited_transition env kind wallet operation from to now = do
  row ← allocation_keys wallet operation
  transition env wallet operation from to now
  record_audit env (transition_payload kind wallet operation row from to)

-- A state at which `commit_index` has happened already.
abbrev pub is_index_done : AllocationState → Bool
is_index_done index_committed = true
is_index_done account_committed = true
is_index_done activated = true
is_index_done _ = false

unfoldable pub commit_index_body : Env → ℕ → ℕ → ℕ → AllocationState → Tx Registry Reservation
commit_index_body env wallet operation now current =
    if not (state_eq current prepared)
    then if is_index_done current then reservation_of wallet operation else fail malformed_frame
    else do
      audited_transition env AuditKind.derivation_index_committed wallet operation prepared
          index_committed now
      reservation_of wallet operation

unfoldable pub commit_index : Env → ℕ → ℕ → ℕ → Registry → Result Reservation × Registry
commit_index env wallet operation now =
    atomically
      do current ← state_of wallet operation; commit_index_body env wallet operation now current

abbrev pub is_account_done : AllocationState → Bool
is_account_done account_committed = true
is_account_done activated = true
is_account_done _ = false

-- What `commit_account` writes into the row.
unfoldable pub set_descriptor : List ℕ → List ℕ → ℕ → Allocation → Allocation
set_descriptor spki fingerprint now row = record row {
  state = account_committed;
  public_key_spki_der = some spki;
  public_key_fingerprint = some fingerprint;
  updated_at_ms = now;
}

-- The check of the fingerprint against the descriptor's bytes.
unfoldable pub check_descriptor : Env → List ℕ → List ℕ → Tx Registry (Unit {0})
check_descriptor env spki fingerprint = do
  decoded ← ok_or (env.hex_decode spki) malformed_frame
  reject_if (not (bytes_eq (env.sha256_hex decoded) fingerprint)) malformed_frame

unfoldable pub commit_account_body :
    Env → ℕ → ℕ → List ℕ → List ℕ → ℕ → AllocationState → Tx Registry Reservation
commit_account_body env wallet operation spki fingerprint now current =
    if is_account_done current then reservation_of wallet operation else do
      update_in_state wallet operation index_committed (set_descriptor spki fingerprint now)
      modify (append_event env wallet operation (some index_committed) account_committed now)
      row ← allocation_keys wallet operation
      record_audit env (
          transition_payload AuditKind.derivation_account_committed wallet operation row
            index_committed account_committed)
      reservation_of wallet operation

unfoldable pub commit_account :
    Env → ℕ → ℕ → List ℕ → List ℕ → ℕ → Registry → Result Reservation × Registry
commit_account env wallet operation spki fingerprint now = atomically do
  check_descriptor env spki fingerprint
  current ← state_of wallet operation
  commit_account_body env wallet operation spki fingerprint now current

-- `public_of`
unfoldable pub public_of : ℕ → ℕ → Tx Registry PublicAccount
public_of wallet operation = do
  row ← ok_or (← gets (load_allocation wallet operation)) malformed_frame
  reject_if (not (state_eq row.state activated)) malformed_frame
  spki ← ok_or row.public_key_spki_der malformed_frame
  fingerprint ← ok_or row.public_key_fingerprint malformed_frame
  pure (record {
    wallet_id = wallet;
    operation_id = operation;
    profile = row.profile;
    role = row.role;
    path = row.path;
    account = as_u32 row.account;
    index = as_u32 row.index;
    key_spec = row.key_spec;
    public_key_spki_der = spki;
    public_key_fingerprint = fingerprint;
    lifecycle = activated;
  })

unfoldable pub activate_body : Env → ℕ → ℕ → ℕ → AllocationState → Tx Registry PublicAccount
activate_body env wallet operation now current =
    if state_eq current activated then public_of wallet operation else do
      audited_transition env AuditKind.derivation_activated wallet operation account_committed
          activated now
      public_of wallet operation

unfoldable pub activate : Env → ℕ → ℕ → ℕ → Registry → Result PublicAccount × Registry
activate env wallet operation now =
    atomically
      do current ← state_of wallet operation; activate_body env wallet operation now current

unfoldable pub retire : Env → ℕ → ℕ → ℕ → Registry → Result (Unit {0}) × Registry
retire env wallet operation now =
    atomically
      (audited_transition env AuditKind.derivation_retired wallet operation activated retired now)

unfoldable pub tombstone_reason : AllocationState → TombstoneReason
tombstone_reason state =
    if state_eq state activated || state_eq state retired
    then TombstoneReason.retired_account
    else TombstoneReason.abandoned

unfoldable pub tombstone_row : Env → ℕ → ℕ → ℕ → Allocation → Tx Registry (Unit {0})
tombstone_row env wallet operation now row = do
  modify (λ r. record r {
    allocations =
        update_where (is_operation wallet operation) (set_state tombstoned now) r.allocations;
    tombstones =
        add_tombstone wallet row.profile row.role row.account (tombstone_reason row.state) now
          row.index r.tombstones;
  })
  modify (append_event env wallet operation (some row.state) tombstoned now)
  record_audit env
      (transition_payload AuditKind.derivation_tombstoned wallet operation row row.state tombstoned)

unfoldable pub tombstone : Env → ℕ → ℕ → ℕ → Registry → Result (Unit {0}) × Registry
tombstone env wallet operation now = atomically do
  row ← ok_or (← gets (load_allocation wallet operation)) malformed_frame
  if state_eq row.state tombstoned then pure tt else tombstone_row env wallet operation now row
