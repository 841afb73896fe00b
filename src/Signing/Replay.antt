-- ===== src/Signing/Replay.antt =====
-- What `authorize_sign` of crates/bloom-signer/src/engine.rs answers for an operation whose backend
-- call may have begun.
use bloom_signer.Prelude.{ℕ, List, some, ◌≡◌, refl, find?, arith, false, Bool-cases, inl, inr}
use bloom_signer.Prelude.Rows.{find?-test}
use bloom_signer.Prelude.Result.{ok}
use bloom_signer.Prelude.Split.{find?-none-count, find?-count}
use bloom_signer.Signing.Request.{KeyRef, SignRequest}
use bloom_signer.Signing.Terms.{SealedApprovalTerms}
use bloom_signer.Signing.State.{
  OperationState, reserved, dispatched, committed, released, quarantined, other_state, state_eq,
  SignAuthorization, same_operation_retry, Operation, Tables, Engine, Deps, ClockDecision,
  is_operation,
}
use bloom_signer.Signing.Authorize.{authorize_sign, check_retry, check_retry_state}
use bloom_signer.Signing.Effects.{mark_operation_dispatched, is_in_state}
use bloom_signer.Signing.Authorized.{Outcome, retried, made, authorize_sign-Authorized}
use bloom_signer.Signing.Counted.{IsConsistent}
use bloom_signer.Signing.Calls.{Call, run}
use bloom_signer.Signing.History.{run-keeps}
use bloom_signer.Signing.Once.{HasLeft, Change-HasLeft, dispatch-HasLeft}

-- The states that admit a retry.
retry_states :
    (s : OperationState) (authorization : SignAuthorization)
    → check_retry_state s ≡ ok authorization
    → state_eq s reserved ≡ false
    → (authorization ≡ same_operation_retry) × (s ≡ committed)
unfolding check_retry_state state_eq
retry_states reserved a h n = ground arith
retry_states dispatched a h n = ground arith
retry_states committed a h n = (ground arith, refl)
retry_states released a h n = ground arith
retry_states quarantined a h n = ground arith
retry_states (other_state k) a h n = ground arith

check_retry-state :
    (request : SignRequest) (binding : ℕ) (row : Operation) (a : SignAuthorization)
    → check_retry request.unsigned binding row ≡ ok a
    → check_retry_state row.state ≡ ok a
unfolding check_retry
check_retry-state request binding row a h = ground arith

-- The row of an operation that has left RESERVED is not reserved.
found-not_reserved :
    (id : ℕ) (t : Tables) (row : Operation)
    → HasLeft id t
    → find? (is_operation id) t.operations ≡ some row
    → state_eq row.state reserved ≡ false
unfolding is_in_state
found-not_reserved id t row h f = elim (Bool-cases (state_eq row.state reserved)) [
  | inl u ↦
      let own = find?-test (is_operation id) t.operations row f in
      let c =
        find?-count (is_operation id) (is_in_state id reserved) t.operations row f (ground arith) in
      let z = h.1 in absurd (omega arith)
  | inr u ↦ u
]

-- No second backend call is authorized while the first may still take effect: from consistent
-- tables, once an operation was dispatched, and after any sequence of calls
-- (authorizations, dispatches, results, finalizations, revocations, clock), `authorize_sign` for the operation answers `Ok` only as a retry of an
-- operation whose result is committed; it never makes a new operation of the id, and never
-- authorizes one that is dispatched, quarantined or released.
pub authorize_sign-after_dispatch :
    (deps : Deps) (key_ref : KeyRef) (attempts : List ℕ) (request : SignRequest)
    (clock : ClockDecision) (s s' s'' : Engine) (authorization : SignAuthorization)
    → IsConsistent s'.tables
    → mark_operation_dispatched deps request.unsigned.operation_id key_ref attempts s ≡ (ok tt, s')
    → (calls : List Call)
    → authorize_sign deps request clock (run deps calls s') ≡ (ok authorization, s'')
    → (authorization ≡ same_operation_retry)
      × (row : Operation) × (find?
            (is_operation request.unsigned.operation_id)
            (run deps calls s').tables.operations
          ≡ some row)
      × (row.state ≡ committed)
authorize_sign-after_dispatch deps key_ref attempts request clock s s' s'' authorization c e calls
      k =
    let id = request.unsigned.operation_id in
    let left =
      run-keeps (HasLeft id) deps (Change-HasLeft id) calls s' c
        (dispatch-HasLeft deps id key_ref attempts s s' e) in
    let w =
      (authorize_sign-Authorized deps request clock (run deps calls s') s'' authorization k).1 in
    from w.terms w.binding w.middle left w.outcome
  where
    id' : ℕ
    id' = request.unsigned.operation_id

    Goal : Type 0
    Goal =
        (authorization ≡ same_operation_retry)
        × (row : Operation) × (find? (is_operation id') (run deps calls s').tables.operations
            ≡ some row)
        × (row.state ≡ committed)

    from :
        (terms : SealedApprovalTerms) (binding : ℕ) (t : Tables)
        → HasLeft id' (run deps calls s').tables
        → Outcome request.unsigned terms binding clock (run deps calls s').tables authorization t
        → Goal
    from terms binding t left (retried row f h same) =
        let state =
          retry_states row.state authorization
            (check_retry-state request binding row authorization h)
            (found-not_reserved id' (run deps calls s').tables row left f) in
        (state.0, row, f, state.1)
    from terms binding t left (made counters n f l o a same) =
        let none_of = find?-none-count (is_operation id') (run deps calls s').tables.operations f in
        let some_of = left.0 in absurd (omega arith)
