-- ===== src/Signing/Attempts.antt =====
-- The attempt ids that `authorize_sign` of crates/bloom-signer/src/engine.rs has consumed.
use bloom_signer.Prelude.{
  ℕ, Bool, true, false, ◌||◌, List, [], ◌∷◌, ◌++◌, ◌≡◌, ◌≢◌, refl, sym, ◌∙◌, any, arith,
}
use bloom_signer.Prelude.Result.{ok}
use bloom_signer.Prelude.Tx.{Post-mono}
use bloom_signer.Signing.Request.{SignRequest}
use bloom_signer.Signing.Revocation.{ApprovalTombstone, RevocationState}
use bloom_signer.Signing.State.{
  SignAuthorization, released_effect, quarantined_effect, Attempt, Tables, Engine, Deps,
  ClockDecision, is_attempt,
}
use bloom_signer.Signing.Authorize.{attempt_row, authorize_sign}
use bloom_signer.Signing.Authorized.{Authorized, authorize_body-Post, authorize_sign-Authorized}
use bloom_signer.Signing.Revoked.{
  Revocation, retried, reconciled, revoked, revoke_body-Revocation, WalletRevocation, retried_all,
  revoked_all, revoke_all_body-WalletRevocation,
}
use bloom_signer.Signing.Observed.{observe_body-ClockOnly, repair_body-ClockOnly}
use bloom_signer.Signing.Untouched.{dispatch-KeepsRest, result-KeepsRest, finalize-KeepsRest}
use bloom_signer.Signing.Calls.{Call, Keeps, run, run-preserves}

any-++ :
    {A : Type 0} (test : A → Bool) (xs ys : List A)
    → any test (xs ++ ys) ≡ (any test xs || any test ys)
unfolding any
any-++ test [] ys = refl
any-++ test (x ∷ xs) ys = let h = any-++ test xs ys in ground arith

-- The attempt id is consumed.
abbrev IsConsumed : ℕ → Tables → Type 0
IsConsumed attempt t = any (is_attempt attempt) t.attempts ≡ true

same_attempts :
    (attempt : ℕ) (t t' : Tables)
    → t'.attempts ≡ t.attempts
    → IsConsumed attempt t
    → IsConsumed attempt t'
same_attempts attempt t t' e h = rw e h

grown :
    (attempt : ℕ) (deps : Deps) (request : SignRequest) (clock : ClockDecision) (t t' : Tables)
    (a : SignAuthorization)
    → IsConsumed attempt t
    → Authorized deps request clock t a t'
    → IsConsumed attempt t'
grown attempt deps request clock t t' a h w =
    rw w.attempts
      (rw (any-++ (is_attempt attempt) t.attempts (attempt_row request.unsigned ∷ [])) (rw h refl))

Revocation-attempts :
    {approval operation digest : ℕ} {t t' : Tables} {r : ApprovalTombstone}
    → Revocation approval operation digest t r t'
    → t'.attempts ≡ t.attempts
Revocation-attempts (retried stored e) = rw e refl
Revocation-attempts (reconciled wallet f c e) = rw e refl
Revocation-attempts (revoked row f n c k e) = rw e refl

WalletRevocation-attempts :
    {wallet operation digest : ℕ} {t t' : Tables} {r : RevocationState}
    → WalletRevocation wallet operation digest t r t'
    → t'.attempts ≡ t.attempts
WalletRevocation-attempts (retried_all stored e) = rw e refl
WalletRevocation-attempts (revoked_all tombstone next a c k e) = rw e refl

IsConsumed-Keeps : (attempt : ℕ) (deps : Deps) → Keeps deps (IsConsumed attempt)
IsConsumed-Keeps attempt deps = record {
  ignores_audit = λ t audit h. h;
  authorizes = λ request clock t h.
      Post-mono (λ r t'. grown attempt deps request clock t t' r.0 h)
        (authorize_body-Post deps request clock t);
  dispatches = λ id key_ref attempts t h.
      Post-mono (λ _ t' e. same_attempts attempt t t' e.0 h)
        (dispatch-KeepsRest id key_ref attempts t);
  results = λ id bytes t h.
      Post-mono (λ _ t' e. same_attempts attempt t t' e.0 h) (result-KeepsRest id bytes t);
  releases = λ id t h.
      Post-mono (λ _ t' e. same_attempts attempt t t' e.0 h)
        (finalize-KeepsRest id released_effect t);
  quarantines = λ id t h.
      Post-mono (λ _ t' e. same_attempts attempt t t' e.0 h)
        (finalize-KeepsRest id quarantined_effect t);
  revokes = λ approval reason operation now digest t h.
      Post-mono (λ r t' e. same_attempts attempt t t' (Revocation-attempts e) h)
        (revoke_body-Revocation deps approval reason operation now digest t);
  revokes_all = λ wallet operation now digest t h.
      Post-mono (λ r t' e. same_attempts attempt t t' (WalletRevocation-attempts e) h)
        (revoke_all_body-WalletRevocation deps wallet operation now digest t);
  observes = λ reading boot_epoch max_step rate_limited t h.
      Post-mono (λ r t' e. same_attempts attempt t t' e.attempts h)
        (observe_body-ClockOnly deps reading boot_epoch max_step rate_limited t);
  repairs = λ accepted t h.
      Post-mono (λ r t' e. same_attempts attempt t t' e.attempts h)
        (repair_body-ClockOnly accepted t);
}

or_true : (b : Bool) → (b || true) ≡ true
or_true b = ground arith

own_attempt :
    (id : ℕ) (rows : List Attempt) (row : Attempt)
    → row.attempt_id ≡ id
    → any (is_attempt id) (rows ++ row ∷ []) ≡ true
unfolding any is_attempt
own_attempt id rows row e =
    let h = any-++ (is_attempt id) rows (row ∷ []) in
    let hit : any (is_attempt id) (row ∷ []) ≡ true = ground arith in
    rw h (rw hit (or_true (any (is_attempt id) rows)))

-- An attempt cannot be replayed: once `authorize_sign` answered `Ok` to a request, no later request
-- with the same attempt id, whatever its other fields, is answered `Ok`, after any sequence of
-- calls (authorizations, dispatches, results, finalizations, revocations and calls of the clock).
pub authorize_sign-no_replay :
    (deps : Deps) (request replay : SignRequest) (clock later : ClockDecision) (s s' s'' : Engine)
    (authorization again : SignAuthorization)
    → authorize_sign deps request clock s ≡ (ok authorization, s')
    → replay.unsigned.attempt_id ≡ request.unsigned.attempt_id
    → (calls : List Call) → authorize_sign deps replay later (run deps calls s') ≢ (ok again, s'')
authorize_sign-no_replay deps request replay clock later s s' s'' authorization again e same calls
      k =
    let w = (authorize_sign-Authorized deps request clock s s' authorization e).1 in
    let first : IsConsumed replay.unsigned.attempt_id s'.tables = rw w.attempts (
      own_attempt replay.unsigned.attempt_id s.tables.attempts (attempt_row request.unsigned)
        (sym same)) in
    let consumed =
      run-preserves (IsConsumed-Keeps replay.unsigned.attempt_id deps) calls s' first in
    let second = (authorize_sign-Authorized deps replay later (run deps calls s') s'' again k).1 in
    true≢false (sym consumed ∙ second.approved.fresh_attempt)
  where
    true≢false : true ≢ false
    true≢false x = cc
