-- ===== src/Signing/Once.antt =====
-- An operation is dispatched to its backend at most once (`mark_operation_dispatched` of
-- crates/bloom-signer/src/engine.rs).
use bloom_signer.Prelude.{
  ℕ, ◌≤◌, ◌&&◌, Bool, true, false, List, [], ◌∷◌, ◌++◌, none, ◌≡◌, ◌≢◌, refl, sym, ap, find?,
  count_where, update_where, arith, Bool-cases, inl, inr, subst,
}
use bloom_signer.Prelude.Result.{Result, ok, err, panic}
use bloom_signer.Prelude.Tx.{Post, ended, Post-ok, >>=-Post}
use bloom_signer.Prelude.Split.{
  count_where-last, count_where-swap, Split-gone, Split-there, one-Split, find?-none-count,
}
use bloom_signer.Signing.Request.{KeyRef}
use bloom_signer.Signing.State.{
  reserved, dispatched, state_eq, Operation, Tables, Engine, Deps, is_operation,
}
use bloom_signer.Signing.Effects.{mark_operation_dispatched, dispatch_body, is_in_state, set_state}
use bloom_signer.Signing.Mutation.{mutation-cases}
use bloom_signer.Signing.Changes.{Replaced, Change, keep, reserve, settle, release, deactivate}
use bloom_signer.Signing.Counted.{IsConsistent, count-replaced}
use bloom_signer.Signing.Steps.{update_one-Post}
use bloom_signer.Signing.Calls.{Call, run}
use bloom_signer.Signing.History.{run-keeps}

-- The operation exists and no row of it is reserved any more.
abbrev pub HasLeft : ℕ → Tables → Type 0
HasLeft id t =
    (1 ≤ count_where (is_operation id) t.operations)
    × (count_where (is_in_state id reserved) t.operations ≡ 0)

middle :
    (id : ℕ) (before after : List Operation) (row new : Operation)
    → state_eq new.state reserved ≡ false
    → count_where (is_in_state id reserved) (before ++ row ∷ after) ≡ 0
    → count_where (is_in_state id reserved) (before ++ new ∷ after) ≡ 0
unfolding is_in_state
middle id before after row new left h =
    count_where-swap (is_in_state id reserved) before after row new (ground arith) h

Replaced-HasLeft :
    (id : ℕ) {row new : Operation} {t t' : Tables}
    → Replaced row new t t'
    → HasLeft id t
    → HasLeft id t'
Replaced-HasLeft id {row} {new} {t} {t'} w h =
    let e = count-replaced id w.before w.after row new w.same_key.same_operation in
    let k : 1 ≤ count_where (is_operation id) (w.before ++ row ∷ w.after) = rw w.whole at h.0 in
    (
      rw w.operations (rw e k),
      rw w.operations (middle id w.before w.after row new w.left_reserved (rw w.whole at h.1)),
    )

new-HasLeft :
    (id : ℕ) (rows : List Operation) (new : Operation)
    → find? (is_operation new.operation_id) rows ≡ none
    → (1 ≤ count_where (is_operation id) rows) × (count_where (is_in_state id reserved) rows ≡ 0)
    → (1 ≤ count_where (is_operation id) (rows ++ new ∷ []))
      × (count_where (is_in_state id reserved) (rows ++ new ∷ []) ≡ 0)
unfolding is_in_state is_operation
new-HasLeft id rows new f h = elim (Bool-cases (is_operation id new)) [
  | inl u ↦
      let same : new.operation_id ≡ id = ground arith in
      let e = find?-none-count (is_operation new.operation_id) rows f in
      let k : count_where (is_operation id) rows ≡ 0 = rw (sym same) e in
      let m = h.0 in absurd (omega arith)
  | inr u ↦
      let other : is_in_state id reserved new ≡ false = rw u refl in
      (
        rw (count_where-last (is_operation id) rows new u) h.0,
        rw (count_where-last (is_in_state id reserved) rows new other) h.1,
      )
]

pub Change-HasLeft : (id : ℕ) (t t' : Tables) → Change t t' → HasLeft id t → HasLeft id t'
Change-HasLeft id t t' (keep o a) h = rw o h
Change-HasLeft id t t' (reserve new approval terms n m f p o s l r e a) h =
    rw e (new-HasLeft id t.operations new r h)
Change-HasLeft id t t' (settle row new w l e) h = Replaced-HasLeft id w h
Change-HasLeft id t t' (release row new approval n m w g f o s e) h = Replaced-HasLeft id w h
Change-HasLeft id t t' (deactivate test o a) h = rw o h

and_left : (b c : Bool) → (b && c) ≡ true → b ≡ true
and_left b c h = ground arith

and_false : (b : Bool) → (b && false) ≡ false
and_false b = ground arith

-- The states that `set_state dispatched` leaves behind.
dispatched-HasLeft :
    (id : ℕ) (rows : List Operation)
    → count_where (is_in_state id reserved) rows ≡ 1
    → (1
        ≤ count_where
            (is_operation id)
            (update_where (is_in_state id reserved) (set_state dispatched) rows))
      × (count_where
            (is_in_state id reserved)
            (update_where (is_in_state id reserved) (set_state dispatched) rows)
          ≡ 0)
unfolding is_in_state is_operation state_eq
dispatched-HasLeft id rows h =
    let one = one-Split (is_in_state id reserved) rows h in
    (
      Split-there (is_operation id) (set_state dispatched) one.1 (and_left _ _ one.1.hit),
      Split-gone (set_state dispatched) one.1 (and_false (is_operation id one.0)),
    )

-- A dispatch that succeeds.
dispatch_body-Post :
    (id : ℕ) (key_ref : KeyRef) (attempts : List ℕ) (t : Tables)
    → Post
        (λ _ t'.
          (count_where (is_in_state id reserved) t.operations ≡ 1)
          × (t'.operations
              ≡ update_where (is_in_state id reserved) (set_state dispatched) t.operations))
        (dispatch_body id key_ref attempts t)
unfolding dispatch_body
dispatch_body-Post id key_ref attempts t =
    >>=-Post (update_one-Post (is_in_state id reserved) (set_state dispatched) t)
      λ _ t' u. ended (u.0, ap (λ x. x.operations) u.1)

-- A dispatch of an operation that has left RESERVED is refused.
pub dispatch_refused :
    (deps : Deps) (id : ℕ) (key_ref : KeyRef) (attempts : List ℕ) (s : Engine)
    → HasLeft id s.tables
    → (mark_operation_dispatched deps id key_ref attempts s).0 ≢ ok tt
unfolding mark_operation_dispatched
dispatch_refused deps id key_ref attempts s h =
    mutation-cases (λ r _. r ≢ ok tt) deps (dispatch_body id key_ref attempts) s (λ e s' same k. cc)
      (λ k. cc)
      λ a event t audit s' e same k.
        let u = (Post-ok (dispatch_body-Post id key_ref attempts s.tables) e).0 in
        let z = h.1 in omega arith

-- A dispatch that succeeded has left RESERVED.
pub dispatch-HasLeft :
    (deps : Deps) (id : ℕ) (key_ref : KeyRef) (attempts : List ℕ) (s s' : Engine)
    → mark_operation_dispatched deps id key_ref attempts s ≡ (ok tt, s')
    → HasLeft id s'.tables
unfolding mark_operation_dispatched
dispatch-HasLeft deps id key_ref attempts s s' e =
    subst (λ p. IfOk p.0 p.1) e
      (mutation-cases IfOk deps (dispatch_body id key_ref attempts) s (λ e s' k. tt) tt
        λ a event t audit s' e same.
          let u = Post-ok (dispatch_body-Post id key_ref attempts s.tables) e in
          rw same (rw u.1 (dispatched-HasLeft id s.tables.operations u.0)))
  where
    IfOk : Result (Unit {0}) → Engine → Type 0
    IfOk (ok _) s' = HasLeft id s'.tables
    IfOk (err _) s' = Unit {0}
    IfOk panic s' = Unit {0}

-- A backend call for an operation is started at most once: from consistent tables, once
-- `mark_operation_dispatched` has succeeded for an operation, it succeeds for it never again,
-- whatever sequence of calls (authorizations, dispatches, results, finalizations, revocations and
-- calls of the clock) lies between.
pub dispatch-at_most_once :
    (deps : Deps) (id : ℕ) (key_ref again_key : KeyRef) (attempts again : List ℕ) (s s' : Engine)
    → IsConsistent s'.tables
    → mark_operation_dispatched deps id key_ref attempts s ≡ (ok tt, s')
    → (calls : List Call)
    → (mark_operation_dispatched deps id again_key again (run deps calls s')).0 ≢ ok tt
dispatch-at_most_once deps id key_ref again_key attempts again s s' c e calls =
    dispatch_refused deps id again_key again (run deps calls s') (
      run-keeps (HasLeft id) deps (Change-HasLeft id) calls s' c
        (dispatch-HasLeft deps id key_ref attempts s s' e))
