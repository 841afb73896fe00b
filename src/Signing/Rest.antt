-- ===== src/Signing/Rest.antt =====
-- The tables of the revocations and of the clock of crates/bloom-signer/src/engine.rs, which the other
-- calls leave alone.
use bloom_signer.Prelude.{List, ◌≡◌, refl}
use bloom_signer.Signing.State.{Approval, Attempt, Operation, ClockAnchor, SignAudit, Tables}

pub record Rest (t t' : Tables) : Type 0 where
  pub approval_tombstones : t'.approval_tombstones ≡ t.approval_tombstones
  pub wallet_tombstones : t'.wallet_tombstones ≡ t.wallet_tombstones
  pub revocation_operations : t'.revocation_operations ≡ t.revocation_operations
  pub wallet_states : t'.wallet_states ≡ t.wallet_states
  pub clock_state : t'.clock_state ≡ t.clock_state

-- An update of the other tables.
pub Rest-update :
    {t : Tables} {approvals : List Approval} {attempts : List Attempt} {operations : List Operation}
    {anchors : List ClockAnchor} {audit : List SignAudit}
    → Rest t (record t {
      approvals = approvals;
      attempts = attempts;
      operations = operations;
      anchors = anchors;
      audit = audit;
    })
Rest-update = record {
  approval_tombstones = refl;
  wallet_tombstones = refl;
  revocation_operations = refl;
  wallet_states = refl;
  clock_state = refl;
}

pub Rest-then : {t t' t'' : Tables} → Rest t t' → Rest t' t'' → Rest t t''
Rest-then a b = record {
  approval_tombstones = rw b.approval_tombstones a.approval_tombstones;
  wallet_tombstones = rw b.wallet_tombstones a.wallet_tombstones;
  revocation_operations = rw b.revocation_operations a.revocation_operations;
  wallet_states = rw b.wallet_states a.wallet_states;
  clock_state = rw b.clock_state a.clock_state;
}
