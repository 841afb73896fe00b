-- ===== src/Signing/Changes.antt =====
-- What a call of the signing part of crates/bloom-signer/src/engine.rs can do to the operations and
-- the approvals.
use bloom_signer.Prelude.{
  ℕ, ◌+◌, ◌≤◌, Bool, true, false, ◌||◌, List, [], ◌∷◌, ◌++◌, none, some, ◌≡◌, find?, update_where,
}
use bloom_signer.Signing.Terms.{SealedApprovalTerms}
use bloom_signer.Signing.State.{
  reserved, dispatched, released, state_eq, Approval, Operation, Tables, is_approval, is_operation,
}
use bloom_signer.Signing.Authorize.{set_counters}
use bloom_signer.Signing.Revoke.{deactivated}

-- An update of an operation's state or result.
pub record SameKey (row new : Operation) : Type 0 where
  pub same_operation : new.operation_id ≡ row.operation_id
  pub same_approval : new.approval_id ≡ row.approval_id
  pub same_count : new.signature_count ≡ row.signature_count

-- A row of an operation is replaced.
pub record Replaced (row new : Operation) (t t' : Tables) : Type 0 where
  pub before : List Operation
  pub after : List Operation
  pub whole : t.operations ≡ before ++ row ∷ after
  pub operations : t'.operations ≡ before ++ new ∷ after
  pub same_key : SameKey row new
  pub was_live : state_eq row.state released ≡ false
  pub was_open : (state_eq row.state reserved || state_eq row.state dispatched) ≡ true
  pub left_reserved : state_eq new.state reserved ≡ false

pub data Change (t t' : Tables) : Type 0 where
  keep : t'.operations ≡ t.operations → t'.approvals ≡ t.approvals → Change t t'
  reserve :
      (new : Operation) (approval : Approval) (terms : SealedApprovalTerms)
      (next_operations next_signatures : ℕ)
      → find? (is_approval new.approval_id) t.approvals ≡ some approval
      → approval.terms ≡ some terms
      → (next_operations ≡ approval.committed_operations + 1)
        × (next_operations ≤ terms.limits.max_operations)
      → (next_signatures ≡ approval.committed_signatures + new.signature_count)
        × (next_signatures ≤ terms.limits.max_signatures)
      → state_eq new.state released ≡ false
      → find? (is_operation new.operation_id) t.operations ≡ none
      → t'.operations ≡ t.operations ++ new ∷ []
      → t'.approvals
        ≡ update_where
            (is_approval new.approval_id)
            (set_counters next_operations next_signatures)
            t.approvals
      → Change t t'
  settle :
      (row new : Operation)
      → Replaced row new t t'
      → state_eq new.state released ≡ false
      → t'.approvals ≡ t.approvals
      → Change t t'
  release :
      (row new : Operation) (approval : Approval) (next_operations next_signatures : ℕ)
      → Replaced row new t t'
      → state_eq new.state released ≡ true
      → find? (is_approval row.approval_id) t.approvals ≡ some approval
      → next_operations + 1 ≡ approval.committed_operations
      → next_signatures + row.signature_count ≡ approval.committed_signatures
      → t'.approvals
        ≡ update_where
            (is_approval row.approval_id)
            (set_counters next_operations next_signatures)
            t.approvals
      → Change t t'
  deactivate :
      (test : Approval → Bool)
      → t'.operations ≡ t.operations
      → t'.approvals ≡ update_where test deactivated t.approvals
      → Change t t'
