-- ===== src/Registry/Run.antt =====
-- Histories of calls of crates/bloom-signer/src/derivation_registry.rs. Every call changes the
-- tables only as Registry/Changes.antt allows, so an invariant is proved once for each change.
use bloom_signer.Prelude.{ℕ, Bool, List, [], ◌∷◌}
use bloom_signer.Registry.Types.{Registry, Env}
use bloom_signer.Registry.Prepare.{Request, prepare_allocation_at}
use bloom_signer.Registry.Lifecycle
use bloom_signer.Registry.Changes.{Change, prepare-Change}
use bloom_signer.Registry.Moves.{
  commit_index-Change, commit_account-Change, activate-Change, retire-Change, tombstone-Change,
}

-- A call with its time.
pub data Call : Type 0 where
  prepare : Request → (ℕ → ℕ → Bool) → ℕ → Call
  commit_index : ℕ → ℕ → ℕ → Call
  commit_account : ℕ → ℕ → List ℕ → List ℕ → ℕ → Call
  activate : ℕ → ℕ → ℕ → Call
  retire : ℕ → ℕ → ℕ → Call
  tombstone : ℕ → ℕ → ℕ → Call

unfoldable pub step : Env → Call → Registry → Registry
step env (Call.prepare q invalid_child now) r = (prepare_allocation_at env q invalid_child now r).1
step env (Call.commit_index wallet operation now) r =
    (Lifecycle.commit_index env wallet operation now r).1
step env (Call.commit_account wallet operation spki fingerprint now) r =
    (Lifecycle.commit_account env wallet operation spki fingerprint now r).1
step env (Call.activate wallet operation now) r = (Lifecycle.activate env wallet operation now r).1
step env (Call.retire wallet operation now) r = (Lifecycle.retire env wallet operation now r).1
step env (Call.tombstone wallet operation now) r =
    (Lifecycle.tombstone env wallet operation now r).1

unfoldable pub run : Env → List Call → Registry → Registry
run env [] r = r
run env (call ∷ calls) r = run env calls (step env call r)

pub step-Change : (env : Env) (call : Call) (r : Registry) → Change env r (step env call r)
unfolding step
step-Change env (Call.prepare q invalid_child now) r = prepare-Change env q invalid_child now r
step-Change env (Call.commit_index wallet operation now) r =
    commit_index-Change env wallet operation now r
step-Change env (Call.commit_account wallet operation spki fingerprint now) r =
    commit_account-Change env wallet operation spki fingerprint now r
step-Change env (Call.activate wallet operation now) r = activate-Change env wallet operation now r
step-Change env (Call.retire wallet operation now) r = retire-Change env wallet operation now r
step-Change env (Call.tombstone wallet operation now) r =
    tombstone-Change env wallet operation now r

-- An invariant of every change holds after every history.
pub run-keeps :
    (P : Registry → Type 0) (env : Env)
    → ((r r' : Registry) → Change env r r' → P r → P r')
    → (calls : List Call) (r : Registry) → P r
    → P (run env calls r)
unfolding run
run-keeps P env keep [] r h = h
run-keeps P env keep (call ∷ calls) r h =
    run-keeps P env keep calls (step env call r) (keep r _ (step-Change env call r) h)
