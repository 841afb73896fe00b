-- ===== src/Signing/Idempotent.antt =====
-- A retry of a revocation (`load_revocation_operation` of crates/bloom-signer/src/engine.rs).
use bloom_signer.Prelude.{
  ℕ, true, false, List, [], ◌∷◌, ◌++◌, Option, none, some, ◌==◌, ◌≡◌, ◌≢◌, refl, sym, ap, subst,
  ◌∙◌, any, arith,
}
use bloom_signer.Prelude.Result.{Result, ok, err, operation_id_conflict, ProtocolErrorCode}
use bloom_signer.Prelude.Tx.{bind, lift}
use bloom_signer.Prelude.Rows.{find?-append_none, find?-append_some, find?-none}
use bloom_signer.Signing.Revocation.{
  ApprovalTombstone, RevocationState, RevocationResult, approval_result, RevocationOperation,
  approval_request,
}
use bloom_signer.Signing.State.{
  SignAudit, Tables, Engine, Deps, commit, transaction_at, mutation_transaction,
}
use bloom_signer.Signing.Revoke.{
  is_revocation, as_approval_result, loaded, load_revocation_operation, revoke_unless, revoke_body,
  revoke_after, revoke_approval, bad_reason,
}
use bloom_signer.Signing.Counted.{IsConsistent}
use bloom_signer.Signing.Revoked.{
  Stored, operation_row, Revocation, retried, reconciled, revoked, WalletRevocation, retried_all,
  revoked_all,
}
use bloom_signer.Signing.Observed.{written-ClockOnly}
use bloom_signer.Signing.Calls.{Call, run}
use bloom_signer.Signing.History.{Revocation-Change}
use bloom_signer.Signing.Respects.{Respects, run-respects}
use bloom_signer.Signing.Answers.{revoke_approval-Revocation}
use bloom_signer.Signing.Final.{audited-IsConsistent}

module _ (operation digest : ℕ) (result : RevocationResult) where
  Stored-same :
      (t t' : Tables)
      → t'.revocation_operations ≡ t.revocation_operations
      → Stored operation digest result t
      → Stored operation digest result t'
  Stored-same t t' e h = record {
    row = h.row;
    found = rw e h.found;
    same_digest = h.same_digest;
    same_result = h.same_result;
  }

  Stored-append :
      (t t' : Tables) (new : RevocationOperation)
      → t'.revocation_operations ≡ t.revocation_operations ++ new ∷ []
      → Stored operation digest result t
      → Stored operation digest result t'
  Stored-append t t' new e h = record {
    row = h.row;
    found =
        rw e
          (find?-append_some (is_revocation operation) t.revocation_operations new h.row h.found);
    same_digest = h.same_digest;
    same_result = h.same_result;
  }

  -- A stored operation stays stored.
  Stored-Respects : (deps : Deps) → Respects deps (Stored operation digest result)
  Stored-Respects deps = record {
    ignores_audit = λ t audit h. Stored-same t _ refl h;
    signs = λ t t' change rest h. Stored-same t t' rest.revocation_operations h;
    revokes = λ approval op d t t' r e h. after_revocation approval op d t t' r e h;
    revokes_all = λ wallet op d t t' r e h. after_wallet wallet op d t t' r e h;
    observes = λ reading boot_epoch max_step rate_limited t t' r e h.
        Stored-same t t' (written-ClockOnly _ _ _ _ t t' e.written).revocation_operations h;
    repairs = λ accepted t t' r e h.
        Stored-same t t' (written-ClockOnly _ _ _ _ t t' e.written).revocation_operations h;
  }
    where
      after_revocation :
          (approval op d : ℕ) (t t' : Tables) (r : ApprovalTombstone)
          → Revocation approval op d t r t'
          → Stored operation digest result t
          → Stored operation digest result t'
      after_revocation approval op d t t' r (retried stored e) h = Stored-same t t' (rw e refl) h
      after_revocation approval op d t t' r (reconciled wallet f c e) h =
          Stored-append t t' _ (ap (λ x. x.revocation_operations) e) h
      after_revocation approval op d t t' r (revoked row f n c k e) h =
          Stored-append t t' _ (ap (λ x. x.revocation_operations) e) h

      after_wallet :
          (wallet op d : ℕ) (t t' : Tables) (r : RevocationState)
          → WalletRevocation wallet op d t r t'
          → Stored operation digest result t
          → Stored operation digest result t'
      after_wallet wallet op d t t' r (retried_all stored e) h = Stored-same t t' (rw e refl) h
      after_wallet wallet op d t t' r (revoked_all tombstone next a c k e) h =
          Stored-append t t' _ (ap (λ x. x.revocation_operations) e) h

own_operation :
    (operation wallet digest : ℕ) (result : RevocationResult)
    → is_revocation operation (operation_row operation wallet digest result) ≡ true
unfolding is_revocation
own_operation operation wallet digest result = ground arith

Stored-new :
    (operation wallet digest : ℕ) (result : RevocationResult) (t t' : Tables)
    → any (is_revocation operation) t.revocation_operations ≡ false
    → t'.revocation_operations
      ≡ t.revocation_operations ++ operation_row operation wallet digest result ∷ []
    → Stored operation digest result t'
Stored-new operation wallet digest result t t' fresh e = record {
  row = operation_row operation wallet digest result;
  found = rw e (
      find?-append_none (is_revocation operation) t.revocation_operations _
        (find?-none (is_revocation operation) t.revocation_operations fresh)
        (own_operation operation wallet digest result));
  same_digest = refl;
  same_result = refl;
}

-- A revocation that succeeded is stored.
Revocation-Stored :
    (approval operation digest : ℕ) (t t' : Tables) (r : ApprovalTombstone)
    → Revocation approval operation digest t r t'
    → Stored operation digest (approval_result r) t'
Revocation-Stored approval operation digest t t' r (retried stored e) =
    Stored-same operation digest (approval_result r) t t' (rw e refl) stored
Revocation-Stored approval operation digest t t' r (reconciled wallet f c e) =
    Stored-new operation wallet digest (approval_result r) t t' c
      (ap (λ x. x.revocation_operations) e)
Revocation-Stored approval operation digest t t' r (revoked row f n c k e) =
    Stored-new operation row.wallet_id digest (approval_result r) t t' c
      (ap (λ x. x.revocation_operations) e)

-- The look at the operation id.
loaded-same :
    (digest : ℕ) (row : RevocationOperation) (r : ApprovalTombstone)
    → row.request_digest ≡ digest
    → row.result ≡ approval_result r
    → loaded as_approval_result digest (some row) ≡ ok (some r)
unfolding loaded as_approval_result
loaded-same digest row r d e =
    let u : (row.request_digest == digest) ≡ true = ground arith in rw u (rw e refl)

loaded-other :
    (digest digest' : ℕ) (row : RevocationOperation)
    → row.request_digest ≡ digest
    → digest' ≢ digest
    → loaded as_approval_result digest' (some row) ≡ err operation_id_conflict
unfolding loaded
loaded-other digest digest' row d n =
    let u : (row.request_digest == digest') ≡ false = ground arith in rw u refl

-- A transaction that runs, of a body that ends early or fails.
module _ {A : Type 0} (deps : Deps) (s : Engine)
    (body : Tables → Result ((A × Option SignAudit) × Tables)) (sound : s.audit_degraded ≡ false)
    (verifies : deps.audit_verifies s.tables.audit ≡ true) where
  transaction-early :
      (a : A)
      → body s.tables ≡ ok ((a, none), s.tables)
      → mutation_transaction deps body s ≡ (ok a, s)
  unfolding mutation_transaction transaction_at commit
  transaction-early a e = rw sound (rw verifies (rw e refl))

  transaction-failed :
      (code : ProtocolErrorCode)
      → body s.tables ≡ err code
      → mutation_transaction deps body s ≡ (err code, s)
  unfolding mutation_transaction transaction_at commit
  transaction-failed code e = rw sound (rw verifies (rw e refl))

module _ (deps : Deps) (approval : ℕ) (reason : List ℕ) (operation now digest : ℕ)
    (r : ApprovalTombstone) (t : Tables) where
  body-retry :
      Stored operation digest (approval_result r) t
      → revoke_body deps approval reason operation now digest t ≡ ok ((r, none), t)
  unfolding revoke_body load_revocation_operation revoke_unless bind lift
  body-retry h = rw h.found (rw (loaded-same digest h.row r h.same_digest h.same_result) refl)

  body-conflict :
      (stored : ℕ)
      → Stored operation stored (approval_result r) t
      → digest ≢ stored
      → revoke_body deps approval reason operation now digest t ≡ err operation_id_conflict
  unfolding revoke_body load_revocation_operation revoke_unless bind lift
  body-conflict stored h n = rw h.found (rw (loaded-other stored digest h.row h.same_digest n) refl)

-- `revoke_approval` past the checks of its arguments.
revoke_approval-runs :
    (deps : Deps) (approval : ℕ) (reason : List ℕ) (operation now digest : ℕ) (s : Engine)
    → bad_reason reason ≡ false
    → deps.request_digest (approval_request approval reason operation now) ≡ ok digest
    → revoke_approval deps approval reason operation now s
      ≡ mutation_transaction deps (revoke_body deps approval reason operation now digest) s
unfolding revoke_approval revoke_after
revoke_approval-runs deps approval reason operation now digest s g d = rw g (rw d refl)

-- The revocation is stored in every later state.
revoked-Stored :
    (deps : Deps) (approval : ℕ) (reason : List ℕ) (operation now digest : ℕ) (s s' : Engine)
    (tombstone : ApprovalTombstone) (calls : List Call)
    → IsConsistent s.tables
    → revoke_approval deps approval reason operation now s ≡ (ok tombstone, s')
    → deps.request_digest (approval_request approval reason operation now) ≡ ok digest
    → Stored operation digest (approval_result tombstone) (run deps calls s').tables
revoked-Stored deps approval reason operation now digest s s' tombstone calls c e d =
    let ran = revoke_approval-Revocation deps approval reason operation now s s' tombstone e in
    let change =
      Revocation-Change approval operation ran.digest s.tables tombstone ran.tables ran.did in
    let c' = audited-IsConsistent s.tables ran.tables s' ran.audit ran.final change c in
    let first =
      Revocation-Stored approval operation ran.digest s.tables ran.tables tombstone ran.did in
    let second =
      Stored-same operation ran.digest (approval_result tombstone) ran.tables s'.tables
        (ap (λ t. t.revocation_operations) ran.final) first in
    let third : Stored operation digest (approval_result tombstone) s'.tables =
      subst (λ n. Stored operation n (approval_result tombstone) s'.tables)
        (ok_injective (sym ran.digested ∙ d)) second in
    run-respects (Stored-Respects operation digest (approval_result tombstone) deps) calls s' c'
      third
  where
    ok_injective : {a b : ℕ} → ok a ≡ ok b → a ≡ b
    ok_injective x = cc

-- A revocation can be retried: from consistent tables, once `revoke_approval` answered `Ok` with a
-- tombstone, the same call answers `Ok` with the same tombstone and changes nothing, after any
-- sequence of calls, if the engine is not degraded then, its audit chain verifies and the reason has
-- 1 to 256 bytes.
pub revoke_approval-retry :
    (deps : Deps) (approval : ℕ) (reason : List ℕ) (operation now digest : ℕ) (s s' : Engine)
    (tombstone : ApprovalTombstone) (calls : List Call)
    → IsConsistent s.tables
    → bad_reason reason ≡ false
    → deps.request_digest (approval_request approval reason operation now) ≡ ok digest
    → revoke_approval deps approval reason operation now s ≡ (ok tombstone, s')
    → (run deps calls s').audit_degraded ≡ false
    → deps.audit_verifies (run deps calls s').tables.audit ≡ true
    → revoke_approval deps approval reason operation now (run deps calls s')
      ≡ (ok tombstone, run deps calls s')
revoke_approval-retry deps approval reason operation now digest s s' tombstone calls c g d e sound
      verifies =
    let h = revoked-Stored deps approval reason operation now digest s s' tombstone calls c e d in
    let later = run deps calls s' in
    revoke_approval-runs deps approval reason operation now digest later g d
    ∙ transaction-early deps later _ sound verifies tombstone
        (body-retry deps approval reason operation now digest tombstone later.tables h)

-- An operation id names one revocation: from consistent tables, once `revoke_approval` answered `Ok`
-- under an operation id, a call under the same id whose request has another digest fails with
-- `OPERATION_ID_CONFLICT` and changes nothing, after any sequence of calls, if the engine is not
-- degraded then, its audit chain verifies and the new reason has 1 to 256 bytes.
pub revoke_approval-conflict :
    (deps : Deps) (approval other : ℕ) (reason other_reason : List ℕ)
    (operation now later_now digest other_digest : ℕ) (s s' : Engine)
    (tombstone : ApprovalTombstone) (calls : List Call)
    → IsConsistent s.tables
    → bad_reason other_reason ≡ false
    → deps.request_digest (approval_request approval reason operation now) ≡ ok digest
    → deps.request_digest (approval_request other other_reason operation later_now)
      ≡ ok other_digest
    → other_digest ≢ digest
    → revoke_approval deps approval reason operation now s ≡ (ok tombstone, s')
    → (run deps calls s').audit_degraded ≡ false
    → deps.audit_verifies (run deps calls s').tables.audit ≡ true
    → revoke_approval deps other other_reason operation later_now (run deps calls s')
      ≡ (err operation_id_conflict, run deps calls s')
revoke_approval-conflict deps approval other reason other_reason operation now later_now digest
      other_digest s s' tombstone calls c g d d' n e sound verifies =
    let h = revoked-Stored deps approval reason operation now digest s s' tombstone calls c e d in
    let later = run deps calls s' in
    revoke_approval-runs deps other other_reason operation later_now other_digest later g d'
    ∙ transaction-failed deps later _ sound verifies operation_id_conflict (
        body-conflict deps other other_reason operation later_now other_digest tombstone
          later.tables digest h n)
