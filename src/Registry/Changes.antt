-- ===== src/Registry/Changes.antt =====
-- What each call of crates/bloom-signer/src/derivation_registry.rs may do to the tables: one
-- relation between the tables before and after, which every call satisfies.
use bloom_signer.Prelude.{ℕ, ◌≡◌, refl, Bool, true, List, some, any, find?, update_where}
use bloom_signer.Prelude.Result.{Result, ok}
use bloom_signer.Registry.Types.{
  AllocationState, prepared, index_committed, account_committed, activated, retired, tombstoned,
  Allocation, Namespace, Registry, Env, Reservation, as_u32, is_operation, is_namespace,
}
use bloom_signer.Registry.Events.{append_event}
use bloom_signer.Registry.Tables.{load_allocation, record_invalid_child_tombstone, add_tombstone}
use bloom_signer.Registry.Prepare.{Request, choose_index, chosen, prepare_allocation_at}
use bloom_signer.Registry.Lifecycle.{is_in_state, set_state, tombstone_reason}
use bloom_signer.Registry.Prepared.{
  Reserved, with_namespace, NewOutcome, reserved, target_refused, prepare-cases,
}

-- The arrows of the lifecycle, tombstones aside.
pub data Arrow : AllocationState → AllocationState → Type 0 where
  commitment : Arrow prepared index_committed
  descriptor : Arrow index_committed account_committed
  activation : Arrow account_committed activated
  retirement : Arrow activated retired

-- A change of one row that moves it to a state and leaves its place alone.
pub record IsMove (to : AllocationState) (change : Allocation → Allocation) : Type 0 where
  pub same_key :
      (row : Allocation)
      → ((change row).wallet_id ≡ row.wallet_id) × ((change row).operation_id ≡ row.operation_id)
  pub same_place :
      (row : Allocation)
      → ((change row).profile ≡ row.profile)
        × ((change row).role ≡ row.role)
        × ((change row).account ≡ row.account)
        × ((change row).index ≡ row.index)
        × ((change row).path ≡ row.path)
  pub arrives : (row : Allocation) → (change row).state ≡ to

-- One row went from a state to another, and the event was chained.
pub record Moved (env : Env) (wallet operation now : ℕ) (from to : AllocationState)
    (change : Allocation → Allocation) (r r' : Registry) : Type 0 where
  pub hit : any (is_in_state wallet operation from) r.allocations ≡ true
  pub allocations :
      r'.allocations ≡ update_where (is_in_state wallet operation from) change r.allocations
  pub namespaces : r'.namespaces ≡ r.namespaces
  pub tombstones : r'.tombstones ≡ r.tombstones
  pub events : r'.events ≡ (append_event env wallet operation (some from) to now r).events

-- One row became a tombstone.
pub record Buried (env : Env) (wallet operation now : ℕ) (row : Allocation) (r r' : Registry)
    : Type 0 where
  pub loaded : load_allocation wallet operation r ≡ some row
  pub allocations :
      r'.allocations
      ≡ update_where (is_operation wallet operation) (set_state tombstoned now) r.allocations
  pub namespaces : r'.namespaces ≡ r.namespaces
  pub tombstones :
      r'.tombstones
      ≡ add_tombstone wallet row.profile row.role row.account
          (tombstone_reason row.state)
          now
          row.index
          r.tombstones
  pub events :
      r'.events ≡ (append_event env wallet operation (some row.state) tombstoned now r).events

pub data Change (env : Env) (r r' : Registry) : Type 0 where
  stay : r' ≡ r → Change env r r'
  reserve :
      (q : Request) (invalid_child : ℕ → ℕ → Bool) (now account start : ℕ) (skipped : List ℕ)
      (namespace : Namespace) (made : Reservation)
      → find?
          (is_namespace q.wallet_id q.profile q.role account)
          (with_namespace q account r).namespaces
        ≡ some namespace
      → choose_index q invalid_child account
          (as_u32 namespace.next_index)
          (with_namespace q account r)
        ≡ ok (chosen start skipped)
      → Reserved env q now account
          (as_u32 namespace.next_index)
          start
          skipped
          (with_namespace q account r)
          made
          r'
      → Change env r r'
  refuse :
      (q : Request) (now account index : ℕ)
      → r'
        ≡ record_invalid_child_tombstone q.wallet_id q.profile q.role account now index
            (with_namespace q account r)
      → Change env r r'
  move :
      (wallet operation now : ℕ) (from to : AllocationState) (change : Allocation → Allocation)
      → Arrow from to
      → IsMove to change
      → Moved env wallet operation now from to change r r'
      → Change env r r'
  bury :
      (wallet operation now : ℕ) (row : Allocation)
      → Buried env wallet operation now row r r'
      → Change env r r'

NewOutcome-Change :
    (env : Env) (q : Request) (invalid_child : ℕ → ℕ → Bool) (now : ℕ) (r r' : Registry)
    (res : Result Reservation)
    → NewOutcome env q invalid_child now r res r'
    → Change env r r'
NewOutcome-Change env q invalid_child now r r' res
      (reserved account start skipped ns {made = m} a f c e h) =
    reserve q invalid_child now account start skipped ns m f e h
NewOutcome-Change env q invalid_child now r r' res (target_refused account start index e h) =
    refuse q now account index h

pub prepare-Change :
    (env : Env) (q : Request) (invalid_child : ℕ → ℕ → Bool) (now : ℕ) (r : Registry)
    → Change env r (prepare_allocation_at env q invalid_child now r).1
prepare-Change env q invalid_child now r =
    prepare-cases (λ _ r'. Change env r r') env q invalid_child now r (λ e. stay refl) (stay refl)
      (λ row l c. stay refl) (λ res r' l c h. NewOutcome-Change env q invalid_child now r r' res h)
