-- ===== src/Registry/Types.antt =====
-- The rows and the interface types of crates/bloom-signer/src/derivation_registry.rs. Identifiers
-- and roles are compared only, so they are numbers; `text` of the environment gives their bytes.
use bloom_signer.Prelude.{ℕ, ◌%◌, Bool, true, false, ◌&&◌, List, Option, ◌==◌}
use bloom_signer.Prelude.Result.{Result}
use bloom_signer.Derive.Walk.{u32_size}
use bloom_signer.Registry.Path.{Profile, KeySpec, profile_eq, codes}

-- `STATE_PREPARED` and the other five, the values that the table's CHECK admits.
pub data AllocationState : Type 0 where
  prepared index_committed account_committed activated retired tombstoned : AllocationState

unfoldable pub state_eq : AllocationState → AllocationState → Bool
state_eq prepared prepared = true
state_eq index_committed index_committed = true
state_eq account_committed account_committed = true
state_eq activated activated = true
state_eq retired retired = true
state_eq tombstoned tombstoned = true
state_eq _ _ = false

unfoldable pub state_text : AllocationState → List ℕ
state_text prepared = codes "PREPARED"
state_text index_committed = codes "INDEX_COMMITTED"
state_text account_committed = codes "ACCOUNT_COMMITTED"
state_text activated = codes "ACTIVATED"
state_text retired = codes "RETIRED"
state_text tombstoned = codes "TOMBSTONED"

-- `reason` of a tombstone.
pub data TombstoneReason : Type 0 where
  invalid_child retired_account abandoned : TombstoneReason

-- A row of `derivation_namespaces`.
pub record Namespace : Type 0 where
  pub wallet_id : ℕ
  pub profile : Profile
  pub role : ℕ
  pub account : ℕ
  pub next_index : ℕ
  pub maximum_children : ℕ

-- A row of `derivation_allocations`.
pub record Allocation : Type 0 where
  pub wallet_id : ℕ
  pub operation_id : ℕ
  pub profile : Profile
  pub role : ℕ
  pub account : ℕ
  pub index : ℕ
  pub path : List ℕ
  pub state : AllocationState
  pub key_spec : KeySpec
  pub public_key_spki_der : Option (List ℕ)
  pub public_key_fingerprint : Option (List ℕ)
  pub authority_committed : Bool
  pub created_at_ms : ℕ
  pub updated_at_ms : ℕ

-- A row of `derivation_tombstones`.
pub record Tombstone : Type 0 where
  pub wallet_id : ℕ
  pub profile : Profile
  pub role : ℕ
  pub account : ℕ
  pub index : ℕ
  pub reason : TombstoneReason
  pub created_at_ms : ℕ

-- A row of `derivation_events`; the states and hashes are texts.
pub record Event : Type 0 where
  pub wallet_id : ℕ
  pub operation_id : ℕ
  pub from_state : Option (List ℕ)
  pub to_state : List ℕ
  pub previous_hash : List ℕ
  pub entry_hash : List ℕ
  pub recorded_at_ms : ℕ

-- The event types that reach the audit recorder.
pub data AuditKind : Type 0 where
  derivation_prepared derivation_index_committed derivation_account_committed : AuditKind
  derivation_activated derivation_retired derivation_tombstoned : AuditKind

-- An event type with the payload of `transition_payload`.
pub record AuditEvent : Type 0 where
  pub event_type : AuditKind
  pub wallet_id : ℕ
  pub operation_id : ℕ
  pub profile : Profile
  pub role : ℕ
  pub account : ℕ
  pub index : ℕ
  pub path : List ℕ
  pub from_state : Option AllocationState
  pub to_state : AllocationState

-- The registry's tables, with what the audit recorder has written in the same database.
pub record Registry : Type 0 where
  pub namespaces : List Namespace
  pub allocations : List Allocation
  pub tombstones : List Tombstone
  pub events : List Event
  pub journal : List AuditEvent

-- Code outside the file: SHA-256 with its hexadecimal text, `hex::decode`, the text of an
-- identifier, and the audit recorder that the caller passes in, which may refuse.
pub record Env : Type 0 where
  pub text : ℕ → List ℕ
  pub sha256_hex : List ℕ → List ℕ
  pub hex_decode : List ℕ → Option (List ℕ)
  pub audit : AuditEvent → List AuditEvent → Result (List AuditEvent)

-- `Reservation`
pub record Reservation : Type 0 where
  pub operation_id : ℕ
  pub profile : Profile
  pub role : ℕ
  pub account : ℕ
  pub index : ℕ
  pub path : List ℕ
  pub state : AllocationState

-- `PublicAccount`
pub record PublicAccount : Type 0 where
  pub wallet_id : ℕ
  pub operation_id : ℕ
  pub profile : Profile
  pub role : ℕ
  pub path : List ℕ
  pub account : ℕ
  pub index : ℕ
  pub key_spec : KeySpec
  pub public_key_spki_der : List ℕ
  pub public_key_fingerprint : List ℕ
  pub lifecycle : AllocationState

-- `n as u32`
abbrev pub as_u32 : ℕ → ℕ
as_u32 n = n % u32_size

-- The WHERE clauses of the file's statements.
unfoldable pub is_operation : ℕ → ℕ → Allocation → Bool
is_operation wallet operation row = row.wallet_id == wallet && row.operation_id == operation

unfoldable pub is_namespace : ℕ → Profile → ℕ → ℕ → Namespace → Bool
is_namespace wallet profile role account row =
    row.wallet_id == wallet
    && profile_eq row.profile profile
    && row.role == role
    && row.account == account

unfoldable pub in_namespace : ℕ → Profile → ℕ → ℕ → Allocation → Bool
in_namespace wallet profile role account row =
    row.wallet_id == wallet
    && profile_eq row.profile profile
    && row.role == role
    && row.account == account

unfoldable pub is_tombstone : ℕ → Profile → ℕ → ℕ → ℕ → Tombstone → Bool
is_tombstone wallet profile role account index row =
    row.wallet_id == wallet
    && profile_eq row.profile profile
    && row.role == role
    && row.account == account
    && row.index == index
