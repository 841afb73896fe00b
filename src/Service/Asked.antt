-- ===== src/Service/Asked.antt =====
-- The backend calls that the service has made for each operation (`sign` of
-- crates/bloom-signer/src/service.rs), and the state of the operation.
use bloom_signer.Prelude.{
  ℕ, suc, ◌+◌, ◌≤◌, true, false, [], ◌∷◌, ◌++◌, ◌≡◌, refl, sym, subst, ◌∙◌, count_where, arith,
  Bool-cases, inl, inr,
}
use bloom_signer.Prelude.Result.{Result}
use bloom_signer.Prelude.Split.{count_where-++}
use bloom_signer.Prelude.Action.{Ends, read-Ends}
use bloom_signer.Signing.State.{Engine}
use bloom_signer.Signing.Counted.{IsConsistent}
use bloom_signer.Signing.History.{run-keeps, run-IsConsistent}
use bloom_signer.Signing.Once.{HasLeft, Change-HasLeft}
use bloom_signer.Service.Types.{BackendCall}
use bloom_signer.Service.Sign.{ServiceDeps, Service, on_engine}
use bloom_signer.Service.Follows.{Follows}
use bloom_signer.Service.History.{is_call}

abbrev pub asked : ℕ → ℕ → Service → ℕ
asked operation index s = count_where (is_call operation index) s.calls

-- Every hash was sent at most once, and only of operations that have left RESERVED.
pub record IsOnce (s : Service) : Type 0 where
  pub consistent : IsConsistent s.engine.tables
  pub once : (operation index : ℕ) → asked operation index s ≤ 1
  pub left : (operation index : ℕ) → 1 ≤ asked operation index s → HasLeft operation s.engine.tables

-- During the loop of an operation: nothing was sent from the index on.
pub record IsAt (operation index : ℕ) (s : Service) : Type 0 where
  pub all : IsOnce s
  pub ahead : (later : ℕ) → index ≤ later → asked operation later s ≡ 0
  pub gone : HasLeft operation s.engine.tables

module _ (d : ServiceDeps) where
  Follows-HasLeft :
      (operation : ℕ) (e e' : Engine)
      → IsConsistent e.tables
      → Follows d.engine e e'
      → HasLeft operation e.tables
      → HasLeft operation e'.tables
  Follows-HasLeft operation e e' c f h =
      subst (λ x. HasLeft operation x.tables) (sym f.1)
        (run-keeps (HasLeft operation) d.engine (Change-HasLeft operation) f.0 e c h)

  pub Follows-IsOnce :
      (s : Service) (e' : Engine)
      → Follows d.engine s.engine e'
      → IsOnce s
      → IsOnce (record s { engine = e' })
  Follows-IsOnce s e' f h = record {
    consistent =
        subst (λ x. IsConsistent x.tables) (sym f.1)
          (run-IsConsistent d.engine f.0 s.engine h.consistent);
    once = h.once;
    left = λ operation index k.
        Follows-HasLeft operation s.engine e' h.consistent f (h.left operation index k);
  }

  Follows-IsAt :
      (operation index : ℕ) (s : Service) (e' : Engine)
      → Follows d.engine s.engine e'
      → IsAt operation index s
      → IsAt operation index (record s { engine = e' })
  Follows-IsAt operation index s e' f h = record {
    all = Follows-IsOnce s e' f h.all;
    ahead = h.ahead;
    gone = Follows-HasLeft operation s.engine e' h.all.consistent f h.gone;
  }

  -- A call of the engine.
  pub engine-Ends :
      {A : Type 0} (f : Engine → Result A × Engine) (s : Service)
      → Follows d.engine s.engine (f s.engine).1
      → IsOnce s
      → Ends (λ _ s'. IsOnce s') IsOnce (on_engine f s)
  engine-Ends f s w h =
      let k = Follows-IsOnce s (f s.engine).1 w h in read-Ends (f s.engine).0 _ (λ a e. k) k

-- One call more.
asked-more :
    (operation index : ℕ) (s : Service) (call : BackendCall)
    → asked operation index (record s { calls = s.calls ++ call ∷ [] })
      ≡ asked operation index s + count_where (is_call operation index) (call ∷ [])
asked-more operation index s call = count_where-++ (is_call operation index) s.calls (call ∷ [])

own_call :
    (operation index : ℕ) (call : BackendCall)
    → is_call operation index call ≡ true
    → (call.operation_id ≡ operation)
      × (call.child_index ≡ index)
      × (count_where (is_call operation index) (call ∷ []) ≡ 1)
unfolding is_call count_where
own_call operation index call h = (ground arith, ground arith, rw h refl)

other_call :
    (operation index : ℕ) (call : BackendCall)
    → is_call operation index call ≡ false
    → count_where (is_call operation index) (call ∷ []) ≡ 0
unfolding count_where
other_call operation index call h = rw h refl

later_call :
    (operation index later : ℕ) (call : BackendCall)
    → call.child_index ≡ index
    → suc index ≤ later
    → is_call operation later call ≡ false
unfolding is_call
later_call operation index later call e h = ground arith

-- The call of the loop at its index.
pub asked-IsAt :
    (operation index : ℕ) (s : Service) (call : BackendCall)
    → call.operation_id ≡ operation
    → call.child_index ≡ index
    → IsAt operation index s
    → IsAt operation (suc index) (record s { calls = s.calls ++ call ∷ [] })
asked-IsAt operation index s call own at h = record {
  all = record {
    consistent = h.all.consistent;
    once = λ o i. rw (asked-more o i s call) (elim (Bool-cases (is_call o i call)) [
      | inl u ↦
          let c = own_call o i call u in
          let none_yet : asked o i s ≡ 0 =
            rw (sym c.0 ∙ own) (h.ahead i (let e = c.1 in omega arith)) in
          let n = c.2 in omega arith
      | inr u ↦ let n = other_call o i call u in let m = h.all.once o i in omega arith
    ]);
    left = λ o i k. elim (Bool-cases (is_call o i call)) [
      | inl u ↦ rw (sym (own_call o i call u).0 ∙ own) h.gone
      | inr u ↦
          let n = other_call o i call u in
          let m = asked-more o i s call in h.all.left o i (omega arith)
    ];
  };
  ahead = λ later k.
      let n = other_call operation later call (later_call operation index later call at k) in
      let m = asked-more operation later s call in
      let z = h.ahead later (omega arith) in omega arith;
  gone = h.gone;
}
