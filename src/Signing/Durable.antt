-- ===== src/Signing/Durable.antt =====
-- The end of an operation of crates/bloom-signer/src/engine.rs is durable, and so is its result
-- (`commit_operation_result`, `stored_operation_result`).
use bloom_signer.Prelude.{
  ℕ, ◌≤◌, Bool, true, false, ◌||◌, List, [], ◌∷◌, ◌++◌, Option, none, some, ◌≡◌, refl, sym, ap,
  subst, ◌∙◌, find?, count_where, update_where, arith, Bool-cases, inl, inr,
}
use bloom_signer.Prelude.Result.{Result, ok, err, panic, ProtocolErrorCode, backend_invalid_request}
use bloom_signer.Prelude.Rows.{find?-append_some, find?-update_where}
use bloom_signer.Prelude.Tx.{Post, ended, Post-ok, >>=-Post}
use bloom_signer.Prelude.Split.{
  found-Split, count_where-++, count_where-miss, find?-none-count, count_where-imp, find?-narrow,
}
use bloom_signer.Signing.State.{
  reserved, dispatched, committed, state_eq, Operation, Tables, Engine, Deps, is_operation,
}
use bloom_signer.Signing.Effects.{
  commit_operation_result, result_body, is_open, is_in_state, set_result, stored_operation_result,
  result_of,
}
use bloom_signer.Signing.Mutation.{mutation-cases}
use bloom_signer.Signing.Changes.{Replaced, Change, keep, reserve, settle, release, deactivate}
use bloom_signer.Signing.Counted.{IsConsistent, Change-IsConsistent}
use bloom_signer.Signing.Steps.{update_one-Post, result-Change}
use bloom_signer.Signing.Calls.{Call, run}
use bloom_signer.Signing.History.{run-keeps, audit-Change}

abbrev pub is_unfinished : Operation → Bool
is_unfinished row = state_eq row.state reserved || state_eq row.state dispatched

-- The row that is found for the operation.
abbrev pub IsRow : ℕ → Operation → Tables → Type 0
IsRow id row t = find? (is_operation id) t.operations ≡ some row

-- A row of the table is replaced that is not the one that is found.
replaced-found :
    (id : ℕ) (row old new : Operation) (before after : List Operation)
    → is_unfinished row ≡ false
    → is_unfinished old ≡ true
    → new.operation_id ≡ old.operation_id
    → find? (is_operation id) (before ++ old ∷ after) ≡ some row
    → find? (is_operation id) (before ++ new ∷ after) ≡ some row
unfolding find? is_operation
replaced-found id row old new [] after done unended same f =
    elim (Bool-cases (is_operation id old)) [
      | inl u ↦ absurd (unended-done (some_injective (rw u at f)))
      | inr u ↦ let miss : is_operation id new ≡ false = rw same u in rw miss (rw u at f)
    ]
  where
    some_injective : some old ≡ some row → old ≡ row
    some_injective x = cc

    unended-done : old ≡ row → ⊥
    unended-done x = cc (sym done ∙ ap is_unfinished (sym x) ∙ unended)
replaced-found id row old new (x ∷ before) after done unended same f =
    elim (Bool-cases (is_operation id x)) [
      | inl u ↦ rw u (rw u at f)
      | inr u ↦ rw u (replaced-found id row old new before after done unended same (rw u at f))
    ]

Replaced-IsRow :
    (id : ℕ) (row : Operation)
    → is_unfinished row ≡ false
    → {old new : Operation} {t t' : Tables} → Replaced old new t t'
    → IsRow id row t
    → IsRow id row t'
Replaced-IsRow id row done {old} {new} w h = rw w.operations (
    replaced-found id row old new w.before w.after done w.was_open w.same_key.same_operation
      (rw w.whole at h))

Change-IsRow :
    (id : ℕ) (row : Operation)
    → is_unfinished row ≡ false
    → (t t' : Tables) → Change t t'
    → IsRow id row t
    → IsRow id row t'
Change-IsRow id row done t t' (keep o a) h = rw o h
Change-IsRow id row done t t' (reserve new approval terms n m f p o s l r e a) h =
    rw e (find?-append_some (is_operation id) t.operations new row h)
Change-IsRow id row done t t' (settle old new w l e) h = Replaced-IsRow id row done w h
Change-IsRow id row done t t' (release old new approval n m w g f o s e) h =
    Replaced-IsRow id row done w h
Change-IsRow id row done t t' (deactivate test o a) h = rw o h

-- A finished operation never changes: from consistent tables, when the row of an operation is neither
-- RESERVED nor DISPATCHED, it is the same row, with its state and its result, after any sequence of
-- calls (authorizations, dispatches, results, finalizations, revocations and calls of the clock).
pub run-finished :
    (deps : Deps) (calls : List Call) (s : Engine) (id : ℕ) (row : Operation)
    → IsConsistent s.tables
    → find? (is_operation id) s.tables.operations ≡ some row
    → (state_eq row.state reserved || state_eq row.state dispatched) ≡ false
    → find? (is_operation id) (run deps calls s).tables.operations ≡ some row
run-finished deps calls s id row c h done =
    run-keeps (IsRow id row) deps (Change-IsRow id row done) calls s c h

-- The committed row is the one that a stored result is read from.
pub stored_of :
    (id : ℕ) (bytes : List ℕ) (row : Operation) (t : Tables)
    → find? (is_operation id) t.operations ≡ some row
    → state_eq row.state committed ≡ true
    → row.normalized_result ≡ some bytes
    → stored_operation_result id t ≡ some bytes
unfolding stored_operation_result result_of is_in_state
stored_of id bytes row t f c r =
    let found =
      find?-narrow (is_operation id) (λ x. state_eq x.state committed) t.operations row f c in
    rw found r

open_own : (id : ℕ) (row : Operation) → is_open id row ≡ true → is_operation id row ≡ true
unfolding is_open
open_own id row h = ground arith

same_id :
    (id : ℕ) (bytes : List ℕ) (row : Operation)
    → is_operation id (set_result bytes row) ≡ is_operation id row
unfolding is_operation
same_id id bytes row = refl

-- The only row of the operation is the open one.
found_open :
    (id : ℕ) (rows : List Operation) (row : Operation)
    → count_where (is_operation id) rows ≤ 1
    → count_where (is_open id) rows ≡ 1
    → find? (is_operation id) rows ≡ some row
    → is_open id row ≡ true
found_open id rows row c o f = elim (Bool-cases (is_open id row)) [
  | inl u ↦ u
  | inr u ↦
      let split = found-Split (is_operation id) rows row f c in
      let m = split.missed in
      let a = count_where-imp (is_operation id) (is_open id) split.before (open_own id) in
      let b = count_where-imp (is_operation id) (is_open id) split.after (open_own id) in
      let whole : count_where (is_open id) (split.before ++ row ∷ split.after) ≡ 1 =
        rw (sym split.whole) o in
      let apart = count_where-++ (is_open id) split.before (row ∷ split.after) in
      let miss = count_where-miss (is_open id) row split.after u in absurd (omega arith)
]

-- The row that a commit of a result leaves.
committed-row :
    (id : ℕ) (bytes : List ℕ) (rows : List Operation)
    → count_where (is_operation id) rows ≤ 1
    → count_where (is_open id) rows ≡ 1
    → (row : Operation) × (find?
          (is_operation id)
          (update_where (is_open id) (set_result bytes) rows)
        ≡ some (set_result bytes row))
committed-row id bytes rows c o = from (find? (is_operation id) rows) refl
  where
    Goal : Type 0
    Goal =
        (row : Operation) × (find? (is_operation id)
            (update_where (is_open id) (set_result bytes) rows)
          ≡ some (set_result bytes row))

    from : (found : Option Operation) → find? (is_operation id) rows ≡ found → Goal
    from none f =
        let none_of = find?-none-count (is_operation id) rows f in
        let fewer = count_where-imp (is_operation id) (is_open id) rows (open_own id) in
        absurd (omega arith)
    from (some row) f =
        let kept =
          find?-update_where (is_operation id) (is_open id) (set_result bytes) rows row
            (same_id id bytes) f in
        (row, rw (found_open id rows row c o f) at kept)

-- A commit of a result that succeeds.
result_body-Post :
    (id : ℕ) (bytes : List ℕ) (t : Tables)
    → Post
        (λ _ t'.
          (count_where (is_open id) t.operations ≡ 1)
          × (t'.operations ≡ update_where (is_open id) (set_result bytes) t.operations))
        (result_body id bytes t)
unfolding result_body
result_body-Post id bytes t =
    >>=-Post (update_one-Post (is_open id) (set_result bytes) t)
      λ _ t' u. ended (u.0, ap (λ x. x.operations) u.1)

-- The tables of a commit that succeeded.
record Committed (id : ℕ) (bytes : List ℕ) (s' : Engine) : Type 0 where
  row : Operation
  found : find? (is_operation id) s'.tables.operations ≡ some (set_result bytes row)
  consistent : IsConsistent s'.tables

failed_done : (code : ProtocolErrorCode) (r : Result (Unit {0})) → r ≡ err code → r ≡ ok tt → ⊥
failed_done code r x y = cc

commit-Committed :
    (deps : Deps) (id : ℕ) (bytes : List ℕ) (s s' : Engine)
    → IsConsistent s.tables
    → commit_operation_result deps id bytes s ≡ (ok tt, s')
    → Committed id bytes s'
unfolding commit_operation_result
commit-Committed deps id [] s s' c e =
    absurd (failed_done backend_invalid_request _ refl (ap (λ p. p.0) e))
commit-Committed deps id (byte ∷ bytes) s s' c e =
    subst (λ p. IfOk p.0 p.1) e
      (mutation-cases IfOk deps (result_body id (byte ∷ bytes)) s (λ e s' k. tt) tt
        λ a event t audit s' b same.
          let u = Post-ok (result_body-Post id (byte ∷ bytes) s.tables) b in
          let change = Post-ok (result-Change id (byte ∷ bytes) s.tables) b in
          let one =
            committed-row id (byte ∷ bytes) s.tables.operations (c.unique_operations id) u.0 in
          record {
            row = one.0;
            found = rw (ap (λ x. x.operations) same) (rw u.1 one.1);
            consistent =
                Change-IsConsistent s.tables s'.tables
                  (subst (Change s.tables) (sym same) (audit-Change s.tables t audit change)) c;
          })
  where
    IfOk : Result (Unit {0}) → Engine → Type 0
    IfOk (ok _) s' = Committed id (byte ∷ bytes) s'
    IfOk (err _) s' = Unit {0}
    IfOk panic s' = Unit {0}

-- A committed result is never lost: from consistent tables, once `commit_operation_result` answered
-- `Ok`, `stored_operation_result` of the operation is the committed bytes after any sequence of calls
-- (authorizations, dispatches, results, finalizations, revocations and calls of the clock).
pub commit_operation_result-durable :
    (deps : Deps) (id : ℕ) (bytes : List ℕ) (s s' : Engine)
    → IsConsistent s.tables
    → commit_operation_result deps id bytes s ≡ (ok tt, s')
    → (calls : List Call) → stored_operation_result id (run deps calls s').tables ≡ some bytes
unfolding state_eq
commit_operation_result-durable deps id bytes s s' c e calls =
    let w = commit-Committed deps id bytes s s' c e in
    let later = run-finished deps calls s' id (set_result bytes w.row) w.consistent w.found refl in
    stored_of id bytes (set_result bytes w.row) (run deps calls s').tables later refl refl
