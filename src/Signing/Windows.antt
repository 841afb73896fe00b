-- ===== src/Signing/Windows.antt =====
-- The operation-rate windows of `reserve_parser_free_limits` of crates/bloom-signer/src/engine.rs.
use bloom_signer.Prelude.{
  ℕ, ◌+◌, ◌-◌, ◌≤◌, Bool, List, [], ◌∷◌, ◌++◌, none, some, ◌≡◌, sym, ◌∙◌, find?, count_where, All,
  arith, Bool-cases, inl, inr,
}
use bloom_signer.Prelude.Result.{ok, >>=-ok, ◌>>◌}
use bloom_signer.Prelude.Split.{count_where-++, All-mono}
use bloom_signer.Signing.Request.{UnsignedSignRequest, SignRequest}
use bloom_signer.Signing.Terms.{SlidingWindow, SealedApprovalTerms}
use bloom_signer.Signing.State.{
  Approval, Operation, SignAuthorization, Tables, Engine, Deps, ClockDecision, is_approval,
  is_operation,
}
use bloom_signer.Signing.Limits.{
  Counters, in_window, window_start, exceeds, checked_add, check_operation_window,
  check_operation_windows, check_signature_windows, next_counters, reserve_parser_free_limits,
}
use bloom_signer.Signing.Authorize.{authorize_sign, reserved_row}
use bloom_signer.Signing.Authorized.{Outcome, retried, made, authorize_sign-Authorized}

-- The operations of an approval that a window ending at `now` counts.
abbrev pub in_window_now : ℕ → ℕ → List Operation → SlidingWindow → ℕ
in_window_now approval now rows window =
    count_where (in_window approval (now - window.duration_ms) now) rows

operation_window :
    (approval now : ℕ) (rows : List Operation) (window : SlidingWindow)
    → check_operation_window approval now rows window ≡ ok tt
    → in_window_now approval now rows window + 1 ≤ window.maximum
unfolding check_operation_window window_start exceeds checked_add
operation_window approval now rows window h = ground arith

operation_windows :
    (approval now : ℕ) (rows : List Operation) (windows : List SlidingWindow)
    → check_operation_windows approval now rows windows ≡ ok tt
    → All (λ window. in_window_now approval now rows window + 1 ≤ window.maximum) windows
unfolding check_operation_windows
operation_windows approval now rows [] h = tt
operation_windows approval now rows (window ∷ windows) h =
    let first =
      >>=-ok (check_operation_window approval now rows window)
        (λ _. check_operation_windows approval now rows windows) tt h in
    (
      operation_window approval now rows window first.1,
      operation_windows approval now rows windows first.2,
    )

limits-windows :
    (t : Tables) (u : UnsignedSignRequest) (terms : SealedApprovalTerms) (now : ℕ) (a : Approval)
    (c : Counters)
    → find? (is_approval u.approval_id) t.approvals ≡ some a
    → reserve_parser_free_limits t u terms now ≡ ok c
    → check_operation_windows u.approval_id now t.operations terms.limits.operation_rate_limits
      ≡ ok tt
unfolding reserve_parser_free_limits
limits-windows t u terms now a c f h =
    let first = >>=-ok (next_counters u terms a) _ c (rw f at h) in
    let second =
      >>=-ok
        (check_operation_windows u.approval_id now t.operations terms.limits.operation_rate_limits
          >> check_signature_windows u.approval_id u.signature_count now t.operations
              terms.limits.signature_rate_limits)
        (λ _. ok first.0) c first.2 in
    (>>=-ok
      (check_operation_windows u.approval_id now t.operations terms.limits.operation_rate_limits)
      (λ _.
        check_signature_windows u.approval_id u.signature_count now t.operations
          terms.limits.signature_rate_limits)
      tt second.1).1

-- One more row counts at most once.
one_more :
    (test : Operation → Bool) (rows : List Operation) (new : Operation)
    → count_where test (rows ++ new ∷ []) ≤ count_where test rows + 1
unfolding count_where
one_more test rows new =
    let h = count_where-++ test rows (new ∷ []) in
    elim (Bool-cases (test new)) [
      | inl u ↦ rw h (rw u (omega arith))
      | inr u ↦ rw h (rw u (omega arith))
    ]

-- The rate of new operations is bounded: when `authorize_sign` answers `Ok` to a request whose
-- operation id had no row, then in the tables it leaves every operation-rate window of the
-- approval's terms that ends at the effective time holds at most its maximum of operations that
-- were not released, the new one included.
pub authorize_sign-within_windows :
    (deps : Deps) (request : SignRequest) (clock : ClockDecision) (s s' : Engine)
    (authorization : SignAuthorization)
    → find? (is_operation request.unsigned.operation_id) s.tables.operations ≡ none
    → authorize_sign deps request clock s ≡ (ok authorization, s')
    → (a : Approval) × (terms : SealedApprovalTerms) × (find?
          (is_approval request.unsigned.approval_id)
          s.tables.approvals
        ≡ some a)
      × (a.terms ≡ some terms)
      × All
          (λ window.
            in_window_now request.unsigned.approval_id clock.effective_now_ms s'.tables.operations
              window
            ≤ window.maximum)
          terms.limits.operation_rate_limits
authorize_sign-within_windows deps request clock s s' authorization new e =
    let w = (authorize_sign-Authorized deps request clock s s' authorization e).1 in
    (
      w.approved.approval,
      w.terms,
      w.approved.stored,
      w.approved.parsed,
      from w.terms w.approved.approval w.approved.stored w.binding w.middle w.operations w.outcome,
    )
  where
    now : ℕ
    now = clock.effective_now_ms

    id : ℕ
    id = request.unsigned.approval_id

    each :
        (row : Operation)
        → s'.tables.operations ≡ s.tables.operations ++ row ∷ []
        → (window : SlidingWindow)
        → in_window_now id now s.tables.operations window + 1 ≤ window.maximum
        → in_window_now id now s'.tables.operations window ≤ window.maximum
    each row same window h =
        let k = one_more (in_window id (now - window.duration_ms) now) s.tables.operations row in
        rw same (omega arith)

    from :
        (terms : SealedApprovalTerms) (a : Approval)
        → find? (is_approval id) s.tables.approvals ≡ some a
        → (binding : ℕ) (t : Tables) → s'.tables.operations ≡ t.operations
        → Outcome request.unsigned terms binding clock s.tables authorization t
        → All
            (λ window. in_window_now id now s'.tables.operations window ≤ window.maximum)
            terms.limits.operation_rate_limits
    from terms a f binding t same (retried row g h k) = absurd (none_some (sym new ∙ g))
      where
        none_some : {row : Operation} → none ≡ some row → ⊥
        none_some x = cc
    from terms a f binding t same (made counters n g l o p q) =
        All-mono terms.limits.operation_rate_limits
          (each (reserved_row request.unsigned binding now) (same ∙ o))
          (operation_windows id now s.tables.operations terms.limits.operation_rate_limits
            (limits-windows s.tables request.unsigned terms now a counters f l))
