-- ===== src/Signing/Authorized.antt =====
-- What a successful `authorize_sign` of crates/bloom-signer/src/engine.rs has checked and written.
use bloom_signer.Prelude.{
  ℕ, Bool, true, false, not, List, [], ◌∷◌, ◌++◌, Option, none, some, ◌==◌, any, find?,
  update_where, ◌≡◌, refl, ap, arith, subst,
}
use bloom_signer.Prelude.Result.{Result, ok, err, panic}
use bloom_signer.Prelude.Tx.{
  Post, ended, ok-Post, reject-Post, lift-Post, ok_or-Post, >>=-Post, Post-ok, lift-last,
}
use bloom_signer.Signing.Request.{UnsignedSignRequest, SignRequest, retry_binding_digest}
use bloom_signer.Signing.Terms.{SealedApprovalTerms}
use bloom_signer.Signing.State.{
  SignAuthorization, new_operation, Approval, Operation, SignAudit, Tables, Engine, Deps,
  ClockDecision, is_approval, is_attempt, is_operation,
}
use bloom_signer.Signing.Checks.{validate_against_approval, require_key_available, wallet_epoch}
use bloom_signer.Signing.Petal.{validate_petal_key_approval}
use bloom_signer.Signing.Limits.{Counters, reserve_parser_free_limits}
use bloom_signer.Signing.Mutation.{mutation-cases}
use bloom_signer.Signing.Rest.{Rest, Rest-update, Rest-then}
use bloom_signer.Signing.Authorize.{
  check_request, check_retry, reserved_row, set_counters, reserve_operation, retry_or_reserve,
  check_approval, attempt_row, authorize_body, authorize_after, authorize_sign,
}

-- The approval of a request, as the checks found it.
pub record IsApproved (deps : Deps) (u : UnsignedSignRequest) (now : ℕ) (t : Tables)
    (terms : SealedApprovalTerms) : Type 0 where
  pub approval : Approval
  pub fresh_attempt : any (is_attempt u.attempt_id) t.attempts ≡ false
  pub stored : find? (is_approval u.approval_id) t.approvals ≡ some approval
  pub active : approval.active ≡ true
  pub parsed : approval.terms ≡ some terms
  pub key_available : require_key_available deps t terms.key_ref ≡ ok tt
  pub petal_in_scope : validate_petal_key_approval t terms now ≡ ok tt
  pub within_terms : validate_against_approval u terms now ≡ ok tt
  pub epoch_current : wallet_epoch t terms.wallet_id ≡ terms.wallet_revocation_epoch

not-false : (b : Bool) → not b ≡ false → b ≡ true
not-false b h = ground arith

not==-false : (a b : ℕ) → not (a == b) ≡ false → a ≡ b
not==-false a b h = ground arith

check_approval-Post :
    (deps : Deps) (u : UnsignedSignRequest) (now : ℕ) (t : Tables)
    → Post (λ terms t'. (t' ≡ t) × IsApproved deps u now t terms) (check_approval deps u now t t)
unfolding check_approval
check_approval-Post deps u now t = reject-Post _ _ λ fresh. ok_or-Post _ _ λ approval stored.
    reject-Post _ _ λ active. ok_or-Post _ _ λ terms parsed. lift-Post _ λ _ available.
      lift-Post _ λ _ scoped. lift-Post _ λ _ valid. reject-Post _ _ λ epoch. ended (
        refl,
        record {
          approval = approval;
          fresh_attempt = fresh;
          stored = stored;
          active = not-false approval.active active;
          parsed = parsed;
          key_available = available;
          petal_in_scope = scoped;
          within_terms = valid;
          epoch_current = not==-false _ _ epoch;
        },
      )

-- A retry changes neither operations nor approvals; a new operation is appended and counted.
pub data Outcome (u : UnsignedSignRequest) (terms : SealedApprovalTerms) (binding : ℕ)
    (clock : ClockDecision) (t : Tables) (authorization : SignAuthorization) (t' : Tables)
    : Type 0 where
  retried :
      (row : Operation)
      → find? (is_operation u.operation_id) t.operations ≡ some row
      → check_retry u binding row ≡ ok authorization
      → t' ≡ t
      → Outcome u terms binding clock t authorization t'
  made :
      (counters : Counters)
      → authorization ≡ new_operation
      → find? (is_operation u.operation_id) t.operations ≡ none
      → reserve_parser_free_limits t u terms clock.effective_now_ms ≡ ok counters
      → t'.operations ≡ t.operations ++ reserved_row u binding clock.effective_now_ms ∷ []
      → t'.approvals
        ≡ update_where
            (is_approval u.approval_id)
            (set_counters counters.next_operations counters.next_signatures)
            t.approvals
      → (t'.attempts ≡ t.attempts) × Rest t t'
      → Outcome u terms binding clock t authorization t'

retry_or_reserve-Post :
    (u : UnsignedSignRequest) (terms : SealedApprovalTerms) (binding : ℕ) (clock : ClockDecision)
    (t : Tables) (existing : Option Operation)
    → find? (is_operation u.operation_id) t.operations ≡ existing
    → Post (Outcome u terms binding clock t) (retry_or_reserve u terms binding clock existing t)
unfolding retry_or_reserve reserve_operation
retry_or_reserve-Post u terms binding clock t (some row) e =
    lift-last t λ authorization c. retried row e c refl
retry_or_reserve-Post u terms binding clock t none e = lift-Post _ λ counters limits. ok-Post _ (
    ok-Post _ (
      reject-Post _ _ λ free.
        ok-Post _ (ok-Post _ (ended (made counters refl e limits refl refl (refl, Rest-update))))))

Outcome-attempts :
    {u : UnsignedSignRequest} {terms : SealedApprovalTerms} {binding : ℕ} {clock : ClockDecision}
    {t t' : Tables} {authorization : SignAuthorization}
    → Outcome u terms binding clock t authorization t'
    → t'.attempts ≡ t.attempts
Outcome-attempts (retried row f c e) = ap (λ t. t.attempts) e
Outcome-attempts (made counters n f l o a e) = e.0

Outcome-Rest :
    {u : UnsignedSignRequest} {terms : SealedApprovalTerms} {binding : ℕ} {clock : ClockDecision}
    {t t' : Tables} {authorization : SignAuthorization}
    → Outcome u terms binding clock t authorization t'
    → Rest t t'
Outcome-Rest (retried row f c e) = rw e Rest-update
Outcome-Rest (made counters n f l o a e) = e.1

-- All that a successful transaction of `authorize_sign` has done.
pub record Authorized (deps : Deps) (request : SignRequest) (clock : ClockDecision) (t : Tables)
    (authorization : SignAuthorization) (t' : Tables) : Type 0 where
  pub binding : ℕ
  pub terms : SealedApprovalTerms
  pub bound : retry_binding_digest deps.hashes request.unsigned ≡ ok binding
  pub approved : IsApproved deps request.unsigned clock.effective_now_ms t terms
  pub middle : Tables
  pub outcome : Outcome request.unsigned terms binding clock t authorization middle
  pub operations : t'.operations ≡ middle.operations
  pub approvals : t'.approvals ≡ middle.approvals
  pub attempts : t'.attempts ≡ t.attempts ++ attempt_row request.unsigned ∷ []
  pub rest : Rest t t'

-- The audit entry is no part of it.
Authorized-audit :
    {deps : Deps} {request : SignRequest} {clock : ClockDecision} {t t' : Tables}
    {authorization : SignAuthorization} (audit : List SignAudit)
    → Authorized deps request clock t authorization t'
    → Authorized deps request clock t authorization (record t' { audit = audit })
Authorized-audit audit h = record {
  binding = h.binding;
  terms = h.terms;
  bound = h.bound;
  approved = h.approved;
  middle = h.middle;
  outcome = h.outcome;
  operations = h.operations;
  approvals = h.approvals;
  attempts = h.attempts;
  rest = Rest-then h.rest Rest-update;
}

pub authorize_body-Post :
    (deps : Deps) (request : SignRequest) (clock : ClockDecision) (t : Tables)
    → Post (λ r t'. Authorized deps request clock t r.0 t') (authorize_body deps request clock t)
unfolding authorize_body
authorize_body-Post deps request clock t = lift-Post _ λ binding bound.
    >>=-Post (check_approval-Post deps request.unsigned clock.effective_now_ms t) λ terms t1 h.
      rw h.0 (
        ok-Post _ (
          >>=-Post (retry_or_reserve-Post request.unsigned terms binding clock t _ refl)
            λ authorization middle o. ok-Post _ (
              ended (record {
                binding = binding;
                terms = terms;
                bound = bound;
                approved = h.1;
                middle = middle;
                outcome = o;
                operations = refl;
                approvals = refl;
                attempts =
                    ap (λ rows. rows ++ attempt_row request.unsigned ∷ []) (Outcome-attempts o);
                rest = Rest-then (Outcome-Rest o) Rest-update;
              }))))

-- The checks and the writes of an authorization that answered `Ok`.
pub authorize_sign-Authorized :
    (deps : Deps) (request : SignRequest) (clock : ClockDecision) (s s' : Engine)
    (authorization : SignAuthorization)
    → authorize_sign deps request clock s ≡ (ok authorization, s')
    → (check_request deps request clock.effective_now_ms ≡ ok tt)
      × Authorized deps request clock s.tables authorization s'.tables
unfolding authorize_sign authorize_after
authorize_sign-Authorized deps request clock s s' authorization e =
    subst (λ p. IfOk p.0 p.1) e (after (check_request deps request clock.effective_now_ms) refl)
  where
    IfOk : Result SignAuthorization → Engine → Type 0
    IfOk (ok a) s' =
        (check_request deps request clock.effective_now_ms ≡ ok tt)
        × Authorized deps request clock s.tables a s'.tables
    IfOk (err _) s' = Unit {0}
    IfOk panic s' = Unit {0}

    inside :
        check_request deps request clock.effective_now_ms ≡ ok tt
        → (a : SignAuthorization) (event : Option SignAudit) (t : Tables) (audit : List SignAudit)
          (s1 : Engine)
        → authorize_body deps request clock s.tables ≡ ok ((a, event), t)
        → s1.tables ≡ record t { audit = audit }
        → IfOk (ok a) s1
    inside c a event t audit s1 b k = (
      c,
      rw k (Authorized-audit audit (Post-ok (authorize_body-Post deps request clock s.tables) b)),
    )

    after :
        (r : Result (Unit {0}))
        → check_request deps request clock.effective_now_ms ≡ r
        → IfOk (authorize_after deps request clock r s).0 (authorize_after deps request clock r s).1
    after (ok tt) c =
        mutation-cases IfOk deps (authorize_body deps request clock) s (λ e s1 k. tt) tt (inside c)
    after (err _) c = tt
    after panic c = tt
