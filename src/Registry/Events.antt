-- ===== src/Registry/Events.antt =====
-- The digest chain over `derivation_events`: `append_event` and `verify_event_chain` of
-- crates/bloom-signer/src/derivation_registry.rs.
use bloom_signer.Prelude.{
  ℕ, zero, suc, not, List, [], ◌∷◌, ◌++◌, Option, none, some, bytes_eq, last_row,
}
use bloom_signer.Prelude.Result.{Result, ok, malformed_frame, ◌>>◌, reject_if}
use bloom_signer.Registry.Path.{codes}
use bloom_signer.Registry.Types.{Event, Env, AllocationState, state_text, Registry}

unfoldable pub zeros : ℕ → List ℕ
zeros zero = []
zeros (suc n) = b'0' ∷ zeros n

-- `"0".repeat(64)`
unfoldable pub genesis_hash : List ℕ
genesis_hash = zeros 64

unfoldable pub or_dash : Option (List ℕ) → List ℕ
or_dash none = codes "-"
or_dash (some s) = s

-- The bytes that the hasher is fed with, in order.
unfoldable pub event_preimage : Env → ℕ → ℕ → Option (List ℕ) → List ℕ → List ℕ → List ℕ
event_preimage env wallet operation from to previous =
    codes "bloom-derivation-event/v1"
    ++ (env.text wallet ++ (env.text operation ++ (or_dash from ++ (to ++ previous))))

unfoldable pub previous_hash_of : List Event → List ℕ
previous_hash_of events = elim (last_row events) [ none ↦ genesis_hash | some row ↦ row.entry_hash ]

unfoldable pub event_row : Env → ℕ → ℕ → Option (List ℕ) → List ℕ → ℕ → List ℕ → Event
event_row env wallet operation from to now previous = record {
  wallet_id = wallet;
  operation_id = operation;
  from_state = from;
  to_state = to;
  previous_hash = previous;
  entry_hash = env.sha256_hex (event_preimage env wallet operation from to previous);
  recorded_at_ms = now;
}

unfoldable pub append_event :
    Env → ℕ → ℕ → Option AllocationState → AllocationState → ℕ → Registry → Registry
append_event env wallet operation from to now r =
    let from_text : Option (List ℕ) = elim from [ none ↦ none | some s ↦ some (state_text s) ] in
    record r {
      events =
          r.events
          ++ event_row env wallet operation from_text (state_text to) now
              (previous_hash_of r.events)
            ∷ [];
    }

-- The loop of `verify_event_chain`.
unfoldable pub verify_from : Env → List ℕ → List Event → Result (Unit {0})
verify_from env expected [] = ok tt
verify_from env expected (row ∷ rows) = do
  reject_if (not (bytes_eq row.previous_hash expected)) malformed_frame
  let computed = env.sha256_hex (
      event_preimage env row.wallet_id row.operation_id row.from_state row.to_state
        row.previous_hash)
  reject_if (not (bytes_eq computed row.entry_hash)) malformed_frame
  verify_from env row.entry_hash rows

unfoldable pub verify_event_chain : Env → Registry → Result (Unit {0})
verify_event_chain env r = verify_from env genesis_hash r.events
