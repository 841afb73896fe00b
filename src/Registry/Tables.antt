-- ===== src/Registry/Tables.antt =====
-- The statements of crates/bloom-signer/src/derivation_registry.rs that read or write one table.
use bloom_signer.Prelude.{
  ℕ, Bool, true, false, ◌&&◌, ◌||◌, not, List, [], ◌∷◌, ◌++◌, Option, ◌==◌, if◌then◌else◌, bytes_eq,
  find?, any,
}
use bloom_signer.Prelude.Result.{malformed_frame, service_unavailable}
use bloom_signer.Prelude.Tx.{Tx, ◌>>=◌, ◌>>◌, pure, gets, modify, lift, reject_if, ok_or}
use bloom_signer.Registry.Path.{Profile, evm, solana, other_profile, profile_eq}
use bloom_signer.Registry.Types.{
  AllocationState, TombstoneReason, Namespace, Allocation, Tombstone, Registry, Env, AuditEvent,
  Reservation, is_operation, is_namespace, in_namespace, is_tombstone, as_u32,
}

-- `load_allocation`
unfoldable pub load_allocation : ℕ → ℕ → Registry → Option Allocation
load_allocation wallet operation r = find? (is_operation wallet operation) r.allocations

-- `state_of`
unfoldable pub state_of : ℕ → ℕ → Tx Registry AllocationState
state_of wallet operation = do
  row ← ok_or (← gets (load_allocation wallet operation)) malformed_frame
  pure row.state

abbrev pub default_namespace_cap : ℕ
default_namespace_cap = 100

abbrev pub known_profile : Profile → Bool
known_profile evm = true
known_profile solana = true
known_profile (other_profile _) = false

abbrev new_namespace : ℕ → Profile → ℕ → ℕ → Namespace
new_namespace wallet profile role account = record {
  wallet_id = wallet;
  profile = profile;
  role = role;
  account = account;
  next_index = 0;
  maximum_children = default_namespace_cap;
}

-- `INSERT OR IGNORE` of a namespace.
unfoldable pub add_namespace : ℕ → Profile → ℕ → ℕ → List Namespace → List Namespace
add_namespace wallet profile role account rows =
    if any (is_namespace wallet profile role account) rows
    then rows
    else rows ++ new_namespace wallet profile role account ∷ []

-- `ensure_namespace`
unfoldable pub ensure_namespace : ℕ → Profile → ℕ → ℕ → Tx Registry (Unit {0})
ensure_namespace wallet profile role account = do
  reject_if (not (known_profile profile)) malformed_frame
  modify (λ r. record r { namespaces = add_namespace wallet profile role account r.namespaces })

-- `INSERT OR IGNORE` of a tombstone.
unfoldable pub add_tombstone :
    ℕ → Profile → ℕ → ℕ → TombstoneReason → ℕ → ℕ → List Tombstone → List Tombstone
add_tombstone wallet profile role account reason now index rows =
    if any (is_tombstone wallet profile role account index) rows
    then rows
    else rows
      ++ record {
        wallet_id = wallet;
        profile = profile;
        role = role;
        account = account;
        index = index;
        reason = reason;
        created_at_ms = now;
      }
        ∷ []

-- `record_invalid_child_tombstone`
unfoldable pub record_invalid_child_tombstone : ℕ → Profile → ℕ → ℕ → ℕ → ℕ → Registry → Registry
record_invalid_child_tombstone wallet profile role account now index r = record r {
  tombstones =
      add_tombstone wallet profile role account TombstoneReason.invalid_child now index
        r.tombstones;
}

-- The rows that an insert of a new allocation would collide with: the primary key and the two
-- UNIQUE constraints of the table.
unfoldable pub collides : Allocation → Allocation → Bool
collides new row =
    is_operation new.wallet_id new.operation_id row
    || (in_namespace new.wallet_id new.profile new.role new.account row && row.index == new.index)
    || (row.wallet_id == new.wallet_id
        && profile_eq row.profile new.profile
        && row.role == new.role
        && bytes_eq row.path new.path)

-- `INSERT INTO derivation_allocations`
unfoldable pub insert_allocation : Allocation → Tx Registry (Unit {0})
insert_allocation new = do
  reject_if (← gets (λ r. any (collides new) r.allocations)) service_unavailable
  modify (λ r. record r { allocations = r.allocations ++ new ∷ [] })

-- The call of the recorder that the caller passed in.
unfoldable pub record_audit : Env → AuditEvent → Tx Registry (Unit {0})
record_audit env event = do
  journal ← (λ r. lift (env.audit event r.journal) r)
  modify (λ r. record r { journal = journal })

-- `reservation_of`
unfoldable pub reservation : Allocation → Reservation
reservation row = record {
  operation_id = row.operation_id;
  profile = row.profile;
  role = row.role;
  account = as_u32 row.account;
  index = as_u32 row.index;
  path = row.path;
  state = row.state;
}

unfoldable pub reservation_of : ℕ → ℕ → Tx Registry Reservation
reservation_of wallet operation = do
  row ← ok_or (← gets (load_allocation wallet operation)) malformed_frame
  pure (reservation row)
