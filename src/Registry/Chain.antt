-- ===== src/Registry/Chain.antt =====
-- The event chain of crates/bloom-signer/src/derivation_registry.rs verifies after every history.
use bloom_signer.Prelude.{
  ℕ, ◌≡◌, refl, List, [], ◌∷◌, ◌++◌, Option, none, some, bytes_eq_refl, last_row, arith,
}
use bloom_signer.Prelude.Result.{ok}
use bloom_signer.Registry.Types.{Registry, Env, Event, AllocationState, state_text}
use bloom_signer.Registry.Events.{
  genesis_hash, event_preimage, previous_hash_of, event_row, append_event, verify_from,
  verify_event_chain,
}
use bloom_signer.Registry.Changes.{Change, stay, reserve, refuse, move, bury}
use bloom_signer.Registry.Tables.{record_invalid_child_tombstone}
use bloom_signer.Registry.Run.{Call, run, run-keeps}

-- The newest entry hash of a chain that began with `expected`.
head_hash : List ℕ → List Event → List ℕ
head_hash expected [] = expected
head_hash expected (row ∷ rows) = head_hash row.entry_hash rows

or_last : List ℕ → Option Event → List ℕ
or_last expected none = expected
or_last expected (some row) = row.entry_hash

last_row-head_hash :
    (expected : List ℕ) (rows : List Event)
    → or_last expected (last_row rows) ≡ head_hash expected rows
unfolding last_row head_hash or_last
last_row-head_hash expected [] = refl
last_row-head_hash expected (row ∷ rows) = ground (arith, last_row-head_hash row.entry_hash rows)

previous_hash_of-head_hash :
    (rows : List Event) → previous_hash_of rows ≡ head_hash genesis_hash rows
unfolding previous_hash_of or_last
previous_hash_of-head_hash rows = ground (arith, last_row-head_hash genesis_hash rows)

verify_from-append :
    (env : Env) (expected : List ℕ) (rows : List Event) (wallet operation : ℕ)
    (from : Option (List ℕ)) (to : List ℕ) (now : ℕ)
    → verify_from env expected rows ≡ ok tt
    → verify_from env expected
        (rows ++ event_row env wallet operation from to now (head_hash expected rows) ∷ [])
      ≡ ok tt
unfolding verify_from head_hash event_row
verify_from-append env expected [] wallet operation from to now h = ground (
  arith,
  bytes_eq_refl expected,
  bytes_eq_refl (env.sha256_hex (event_preimage env wallet operation from to expected)),
)
verify_from-append env expected (row ∷ rows) wallet operation from to now h =
    ground (arith, verify_from-append env row.entry_hash rows wallet operation from to now)

abbrev pub IsChained : Env → Registry → Type 0
IsChained env r = verify_event_chain env r ≡ ok tt

append_event-IsChained :
    (env : Env) (wallet operation : ℕ) (from : Option AllocationState) (to : AllocationState)
    (now : ℕ) (r r' : Registry)
    → r'.events ≡ (append_event env wallet operation from to now r).events
    → IsChained env r
    → IsChained env r'
unfolding verify_event_chain append_event
append_event-IsChained env wallet operation from to now r r' e h =
    rw (e, previous_hash_of-head_hash)
      (verify_from-append env genesis_hash r.events wallet operation _ (state_text to) now h)

same_events-IsChained :
    (env : Env) (r r' : Registry) → r'.events ≡ r.events → IsChained env r → IsChained env r'
unfolding verify_event_chain
same_events-IsChained env r r' e h = rw e h

pub Change-IsChained :
    (env : Env) (r r' : Registry) → Change env r r' → IsChained env r → IsChained env r'
unfolding record_invalid_child_tombstone append_event
Change-IsChained env r r' (stay e) h = rw e h
Change-IsChained env r r' (reserve q _ now account start skipped ns made f e w) h =
    append_event-IsChained env q.wallet_id q.operation_id none _ now r r' w.events h
Change-IsChained env r r' (refuse q now account index e) h =
    same_events-IsChained env r r' (rw e refl) h
Change-IsChained env r r' (move wallet operation now from to change a m w) h =
    append_event-IsChained env wallet operation (some from) to now r r' w.events h
Change-IsChained env r r' (bury wallet operation now row w) h =
    append_event-IsChained env wallet operation (some row.state) _ now r r' w.events h

-- A registry whose event chain verifies keeps a chain that verifies through every history of calls,
-- whatever their outcomes.
pub run-IsChained :
    (env : Env) (calls : List Call) (r : Registry)
    → verify_event_chain env r ≡ ok tt
    → verify_event_chain env (run env calls r) ≡ ok tt
run-IsChained env = run-keeps (IsChained env) env (Change-IsChained env)
