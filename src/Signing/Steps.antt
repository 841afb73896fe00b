-- ===== src/Signing/Steps.antt =====
-- Every call of the signing part of crates/bloom-signer/src/engine.rs is a change.
use bloom_signer.Prelude.{
  ℕ, ◌+◌, ◌-◌, ◌≤◌, Bool, true, false, ◌&&◌, ◌||◌, not, List, some, ◌≡◌, refl, ap, ◌∙◌, find?,
  update_where, count_where, arith,
}
use bloom_signer.Prelude.Result.{ok, >>=-ok, ◌>>◌}
use bloom_signer.Prelude.Tx.{Post, ended, ok-Post, reject-Post, ok_or-Post, >>=-Post, reject-last}
use bloom_signer.Prelude.Split.{found-Split, one-Split, Split-update}
use bloom_signer.Signing.Request.{KeyRef, UnsignedSignRequest, SignRequest}
use bloom_signer.Signing.Terms.{SealedApprovalTerms}
use bloom_signer.Signing.State.{
  OperationState, other_state, reserved, dispatched, committed, released, quarantined, state_eq,
  SignerOperationEffect, released_effect, quarantined_effect, Approval, Operation,
  SignAuthorization, Tables, Deps, ClockDecision, is_approval, is_operation,
}
use bloom_signer.Signing.Limits.{
  Counters, check_operation_windows, check_signature_windows, checked_add, next_counters,
  reserve_parser_free_limits,
}
use bloom_signer.Signing.Authorize.{set_counters, reserved_row}
use bloom_signer.Signing.Effects.{
  update_one, is_in_state, is_open, set_state, set_result, dispatch_body, result_body, give_back,
  release_counters, finalize_row, finalize_body, may_finalize,
}
use bloom_signer.Signing.Authorized.{Authorized, Outcome, retried, made}
use bloom_signer.Signing.Changes.{SameKey, Replaced, Change, keep, reserve, settle, release}

-- The counters that the limits admit.
pub record Admitted (u : UnsignedSignRequest) (terms : SealedApprovalTerms) (a : Approval)
    (c : Counters) : Type 0 where
  pub one_more : c.next_operations ≡ a.committed_operations + 1
  pub operations_fit : c.next_operations ≤ terms.limits.max_operations
  pub signatures_more : c.next_signatures ≡ a.committed_signatures + u.signature_count
  pub signatures_fit : c.next_signatures ≤ terms.limits.max_signatures

next_counters-Admitted :
    (u : UnsignedSignRequest) (terms : SealedApprovalTerms) (a : Approval) (c : Counters)
    → next_counters u terms a ≡ ok c
    → Admitted u terms a c
unfolding next_counters checked_add
next_counters-Admitted u terms a c h = record {
  one_more = ground arith;
  operations_fit = ground arith;
  signatures_more = ground arith;
  signatures_fit = ground arith;
}

pub limits-Admitted :
    (t : Tables) (u : UnsignedSignRequest) (terms : SealedApprovalTerms) (now : ℕ) (a : Approval)
    (c : Counters)
    → find? (is_approval u.approval_id) t.approvals ≡ some a
    → reserve_parser_free_limits t u terms now ≡ ok c
    → Admitted u terms a c
unfolding reserve_parser_free_limits
limits-Admitted t u terms now a c f h =
    let first = >>=-ok (next_counters u terms a) _ c (rw f at h) in
    let second =
      >>=-ok
        (check_operation_windows u.approval_id now t.operations terms.limits.operation_rate_limits
          >> check_signature_windows u.approval_id u.signature_count now t.operations
              terms.limits.signature_rate_limits)
        (λ _. ok first.0) c first.2 in
    next_counters-Admitted u terms a c (first.1 ∙ second.2)

-- An update of exactly one row.
pub update_one-Post :
    (test : Operation → Bool) (change : Operation → Operation) (t : Tables)
    → Post
        (λ _ t'.
          (count_where test t.operations ≡ 1)
          × (t' ≡ record t { operations = update_where test change t.operations }))
        (update_one test change t)
unfolding update_one
update_one-Post test change t = ok-Post _ (ok-Post _ (reject-last _ _ λ h. (ground arith, refl)))

same_key :
    {row new : Operation}
    → new.operation_id ≡ row.operation_id
    → new.approval_id ≡ row.approval_id
    → new.signature_count ≡ row.signature_count
    → SameKey row new
same_key o a c = record { same_operation = o; same_approval = a; same_count = c }

and_right : (b c : Bool) → (b && c) ≡ true → c ≡ true
and_right b c h = ground arith

reserved_open :
    (s : OperationState)
    → state_eq s reserved ≡ true
    → (state_eq s reserved || state_eq s dispatched) ≡ true
reserved_open s h = rw h refl

open_live :
    (s : OperationState)
    → (state_eq s reserved || state_eq s dispatched) ≡ true
    → state_eq s released ≡ false
unfolding state_eq
open_live reserved h = refl
open_live dispatched h = refl
open_live committed h = refl
open_live released h = ground arith
open_live quarantined h = refl
open_live (other_state n) h = refl

-- An update of one open operation that does not release it.
update-Change :
    (test : Operation → Bool) (change : Operation → Operation) (t t' : Tables)
    → ((row : Operation)
        → test row ≡ true
        → (state_eq row.state reserved || state_eq row.state dispatched) ≡ true)
    → ((row : Operation)
        → SameKey row (change row)
          × (state_eq (change row).state reserved ≡ false)
          × (state_eq (change row).state released ≡ false))
    → (count_where test t.operations ≡ 1)
      × (t' ≡ record t { operations = update_where test change t.operations })
    → Change t t'
update-Change test change t t' opens changes u =
    let one = one-Split test t.operations u.0 in
    let row = one.0 in
    settle row (change row)
      (record {
        before = one.1.before;
        after = one.1.after;
        whole = one.1.whole;
        operations = ap (λ x. x.operations) u.1 ∙ Split-update change one.1;
        same_key = (changes row).0;
        was_live = open_live row.state (opens row one.1.hit);
        was_open = opens row one.1.hit;
        left_reserved = (changes row).1;
      })
      (changes row).2 (ap (λ x. x.approvals) u.1)

finalize_open :
    (s : OperationState) (effect : SignerOperationEffect)
    → not (may_finalize s effect) ≡ false
    → (state_eq s reserved || state_eq s dispatched) ≡ true
unfolding state_eq may_finalize
finalize_open reserved effect h = refl
finalize_open dispatched effect h = refl
finalize_open committed effect h = ground arith
finalize_open released effect h = ground arith
finalize_open quarantined effect h = ground arith
finalize_open (other_state n) effect h = ground arith

-- The body of `mark_operation_dispatched`.
pub dispatch-Change :
    (operation : ℕ) (key_ref : KeyRef) (attempts : List ℕ) (t : Tables)
    → Post (λ _ t'. Change t t') (dispatch_body operation key_ref attempts t)
unfolding dispatch_body is_in_state state_eq
dispatch-Change operation key_ref attempts t =
    >>=-Post (update_one-Post (is_in_state operation reserved) (set_state dispatched) t) λ _ t' u.
      ended (
        update-Change (is_in_state operation reserved) (set_state dispatched) t t'
          (λ row h. reserved_open row.state (and_right _ _ h))
          (λ row. (same_key refl refl refl, refl, refl)) u)

-- The body of `commit_operation_result`.
pub result-Change :
    (operation : ℕ) (bytes : List ℕ) (t : Tables)
    → Post (λ _ t'. Change t t') (result_body operation bytes t)
unfolding result_body is_open state_eq
result-Change operation bytes t =
    >>=-Post (update_one-Post (is_open operation) (set_result bytes) t) λ _ t' u. ended (
      update-Change (is_open operation) (set_result bytes) t t' (λ row h. and_right _ _ h)
        (λ row. (same_key refl refl refl, refl, refl)) u)

-- The release gives back what the operation held.
give_back-Post :
    (row : Operation) (t : Tables)
    → Post
        (λ _ t'.
          (approval : Approval) × (find? (is_approval row.approval_id) t.approvals ≡ some approval)
          × (1 ≤ approval.committed_operations)
          × (row.signature_count ≤ approval.committed_signatures)
          × (t'.operations ≡ t.operations)
          × (t'.approvals
              ≡ update_where
                  (is_approval row.approval_id)
                  (set_counters
                    (approval.committed_operations - 1)
                    (approval.committed_signatures - row.signature_count))
                  t.approvals))
        (give_back row t)
unfolding give_back
give_back-Post row t = ok-Post _ (
    ok_or-Post _ _ λ approval f.
      reject-Post _ _
        λ o. reject-Post _ _ λ s. ended (approval, f, ground arith, ground arith, refl, refl))

-- The row of an operation after it was finalized.
finalized :
    (operation : ℕ) (to : OperationState) (row : Operation) (t t' : Tables)
    → find? (is_operation operation) t.operations ≡ some row
    → count_where (is_operation operation) t.operations ≤ 1
    → (state_eq row.state reserved || state_eq row.state dispatched) ≡ true
    → state_eq to reserved ≡ false
    → t'.operations ≡ update_where (is_operation operation) (set_state to) t.operations
    → Replaced row (set_state to row) t t'
finalized operation to row t t' f c opens left e =
    let split = found-Split (is_operation operation) t.operations row f c in
    record {
      before = split.before;
      after = split.after;
      whole = split.whole;
      operations = e ∙ Split-update (set_state to) split;
      same_key = same_key refl refl refl;
      was_live = open_live row.state opens;
      was_open = opens;
      left_reserved = left;
    }

pub release-Change :
    (operation : ℕ) (row : Operation) (already : Bool) (t : Tables)
    → find? (is_operation operation) t.operations ≡ some row
    → count_where (is_operation operation) t.operations ≤ 1
    → Post (λ _ t'. Change t t') (finalize_row operation released_effect row already t)
unfolding finalize_row release_counters state_eq
release-Change operation row true t f c = ended (keep refl refl)
release-Change operation row false t f c = reject-Post _ _ λ m.
    >>=-Post (give_back-Post row t) λ _ t1 g. ok-Post _ (
      ended (
        release row (set_state released row) g.0 (g.0.committed_operations - 1)
          (g.0.committed_signatures - row.signature_count)
          (finalized operation released row t _ f c (finalize_open row.state released_effect m) refl
            (ap (update_where (is_operation operation) (set_state released)) g.4))
          refl g.1 (let h = g.2 in omega arith) (let h = g.3 in omega arith) g.5))

pub quarantine-Change :
    (operation : ℕ) (row : Operation) (already : Bool) (t : Tables)
    → find? (is_operation operation) t.operations ≡ some row
    → count_where (is_operation operation) t.operations ≤ 1
    → Post (λ _ t'. Change t t') (finalize_row operation quarantined_effect row already t)
unfolding finalize_row release_counters state_eq
quarantine-Change operation row true t f c = ended (keep refl refl)
quarantine-Change operation row false t f c = reject-Post _ _ λ m. ok-Post _ (
    ok-Post _ (
      ended (
        settle row (set_state quarantined row)
          (finalized operation quarantined row t _ f c
            (finalize_open row.state quarantined_effect m) refl refl)
          refl refl)))

-- The body of `finalize_operation`.
pub finalize-Change :
    (operation : ℕ) (effect : SignerOperationEffect) (t : Tables)
    → ((row : Operation) (already : Bool)
        → find? (is_operation operation) t.operations ≡ some row
        → Post (λ _ t'. Change t t') (finalize_row operation effect row already t))
    → Post (λ _ t'. Change t t') (finalize_body operation effect t)
unfolding finalize_body
finalize-Change operation effect t k = ok-Post _ (ok_or-Post _ _ λ row f. k row _ f)

-- The body of `authorize_sign`.
pub Authorized-Change :
    (deps : Deps) (request : SignRequest) (clock : ClockDecision) (t t' : Tables)
    (authorization : SignAuthorization)
    → Authorized deps request clock t authorization t'
    → Change t t'
unfolding state_eq
Authorized-Change deps request clock t t' authorization w = from w.outcome
  where
    live : state_eq reserved released ≡ false
    live = refl

    from : Outcome request.unsigned w.terms w.binding clock t authorization w.middle → Change t t'
    from (retried row f c e) =
        keep (w.operations ∙ ap (λ x. x.operations) e) (w.approvals ∙ ap (λ x. x.approvals) e)
    from (made counters n f l o a e) =
        let k =
          limits-Admitted t request.unsigned w.terms clock.effective_now_ms w.approved.approval
            counters w.approved.stored l in
        reserve (reserved_row request.unsigned w.binding clock.effective_now_ms) w.approved.approval
          w.terms counters.next_operations counters.next_signatures w.approved.stored
          w.approved.parsed (k.one_more, k.operations_fit) (k.signatures_more, k.signatures_fit)
          live f (w.operations ∙ o) (w.approvals ∙ a)
