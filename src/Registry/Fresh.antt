-- ===== src/Registry/Fresh.antt =====
-- The reservation of a new operation id by `prepare_allocation_at` of
-- crates/bloom-signer/src/derivation_registry.rs: the index that it chooses, and all that it does.
use bloom_signer.Prelude.{
  ℕ, ◌≤◌, ◌<◌, ◌≡◌, refl, sym, ◌∙◌, subst, find?, Bool, false, ◌||◌, List, [], Option, none, some,
  arith,
}
use bloom_signer.Prelude.Result.{Result, ok, err, panic}
use bloom_signer.Derive.Walk.{Walk, found, panicked, out_of_fuel, u32_size, next_valid_index}
use bloom_signer.Derive.WalkLaws.{Walked, next_valid_index-Walked}
use bloom_signer.Registry.Types.{
  Registry, Env, is_namespace, Namespace, Allocation, as_u32, Reservation,
}
use bloom_signer.Registry.Tables.{load_allocation}
use bloom_signer.Registry.Prepare.{
  Request, chosen, is_dead, choose_index, choose_index_at, choose_account, check_request,
  check_capacity, prepare_allocation_at, walk_choice, target_choice,
}
use bloom_signer.Registry.Prepared.{
  Reserved, with_namespace, NewOutcome, reserved, target_refused, prepare-cases,
}

-- The walk ends at an index that the test accepts.
walk_choice-chosen :
    (invalid : ℕ → Bool) (start index : ℕ) (skipped : List ℕ) (w : Walk)
    → Walked invalid start [] w
    → walk_choice w ≡ ok (chosen index skipped)
    → w ≡ found index skipped
unfolding walk_choice
walk_choice-chosen invalid start index skipped (found i s) h e = ground arith
walk_choice-chosen invalid start index skipped panicked h e = ground arith
walk_choice-chosen invalid start index skipped out_of_fuel h e = ground arith

-- What an index that was chosen for a reservation satisfies.
pub record IsChosen (q : Request) (invalid_child : ℕ → ℕ → Bool) (account counter start : ℕ)
    (r : Registry) : Type 0 where
  pub alive : is_dead q account r start ≡ false
  pub valid : invalid_child account start ≡ false
  pub fits : (q.target_index ≡ none → (counter ≤ start) × (start < u32_size))
  pub targeted : (index : ℕ) → q.target_index ≡ some index → start ≡ index

target_choice-chosen :
    (dead invalid : Bool) (index start : ℕ) (skipped : List ℕ)
    → target_choice dead invalid index ≡ ok (chosen start skipped)
    → (dead ≡ false) × (invalid ≡ false) × (start ≡ index)
unfolding target_choice
target_choice-chosen dead invalid index start skipped e = ground arith

choose_index_at-IsChosen :
    (q : Request) (invalid_child : ℕ → ℕ → Bool) (account counter start : ℕ) (skipped : List ℕ)
    (r : Registry) (target : Option ℕ)
    → counter < u32_size
    → q.target_index ≡ target
    → choose_index_at q invalid_child account counter r target ≡ ok (chosen start skipped)
    → IsChosen q invalid_child account counter start r
unfolding choose_index_at
choose_index_at-IsChosen q invalid_child account counter start skipped r none small t e =
    from_walk (rw (walk_choice-chosen test counter start skipped _ walked e) at walked)
  where
    test : ℕ → Bool
    test candidate = is_dead q account r candidate || invalid_child account candidate

    walked : Walked test counter [] (next_valid_index counter test)
    walked = (next_valid_index-Walked counter test small).1

    from_walk :
        Walked test counter [] (found start skipped)
        → IsChosen q invalid_child account counter start r
    from_walk w = record {
      alive = ground arith;
      valid = ground arith;
      fits = λ _. (w.0, w.1);
      targeted = λ index k. cc;
    }
choose_index_at-IsChosen q invalid_child account counter start skipped r (some index) small t e =
    let h = target_choice-chosen _ _ index start skipped e in
    record { alive = rw h.2 h.0; valid = rw h.2 h.1; fits = λ k. cc; targeted = λ i k. cc (h.2) }

pub choose_index-IsChosen :
    (q : Request) (invalid_child : ℕ → ℕ → Bool) (account counter start : ℕ) (skipped : List ℕ)
    (r : Registry)
    → counter < u32_size
    → choose_index q invalid_child account counter r ≡ ok (chosen start skipped)
    → IsChosen q invalid_child account counter start r
unfolding choose_index
choose_index-IsChosen q invalid_child account counter start skipped r small e =
    choose_index_at-IsChosen q invalid_child account counter start skipped r _ small refl e

-- All that a successful call for a new operation id has done.
pub record Fresh (env : Env) (q : Request) (invalid_child : ℕ → ℕ → Bool) (now : ℕ) (r : Registry)
    (made : Reservation) (r' : Registry) : Type 0 where
  pub account : ℕ
  pub start : ℕ
  pub skipped : List ℕ
  pub namespace : Namespace
  pub checked : check_request q ≡ ok tt
  pub account_chosen : choose_account q r ≡ ok account
  pub found_namespace :
      find?
        (is_namespace q.wallet_id q.profile q.role account)
        (with_namespace q account r).namespaces
      ≡ some namespace
  pub has_room : check_capacity q account namespace (with_namespace q account r) ≡ ok tt
  pub choice :
      IsChosen q invalid_child account
        (as_u32 namespace.next_index)
        start
        (with_namespace q account r)
  pub table :
      Reserved env q now account
        (as_u32 namespace.next_index)
        start
        skipped
        (with_namespace q account r)
        made
        r'

-- What is made of an outcome that is `Ok`.
abbrev FreshIfOk :
    Env → Request → (ℕ → ℕ → Bool) → ℕ → Registry → Result Reservation → Registry → Type 0
FreshIfOk env q invalid_child now r (ok made) r' = Fresh env q invalid_child now r made r'
FreshIfOk env q invalid_child now r (err _) r' = Unit {0}
FreshIfOk env q invalid_child now r panic r' = Unit {0}

NewOutcome-FreshIfOk :
    (env : Env) (q : Request) (invalid_child : ℕ → ℕ → Bool) (now : ℕ) (r r' : Registry)
    (res : Result Reservation)
    → check_request q ≡ ok tt
    → NewOutcome env q invalid_child now r res r'
    → FreshIfOk env q invalid_child now r res r'
NewOutcome-FreshIfOk env q invalid_child now r r' res checked
      (reserved account start skipped namespace a f c e w) =
    record {
      account = account;
      start = start;
      skipped = skipped;
      namespace = namespace;
      checked = checked;
      account_chosen = a;
      found_namespace = f;
      has_room = c;
      choice =
          choose_index-IsChosen q invalid_child account (as_u32 namespace.next_index) start skipped
            (with_namespace q account r) (omega arith) e;
      table = w;
    }
NewOutcome-FreshIfOk env q invalid_child now r r' res checked
      (target_refused account start index e h) =
    tt

prepare-FreshIfOk :
    (env : Env) (q : Request) (invalid_child : ℕ → ℕ → Bool) (now : ℕ) (r : Registry)
    → load_allocation q.wallet_id q.operation_id r ≡ none
    → FreshIfOk env q invalid_child now r
        (prepare_allocation_at env q invalid_child now r).0
        (prepare_allocation_at env q invalid_child now r).1
prepare-FreshIfOk env q invalid_child now r new =
    prepare-cases (FreshIfOk env q invalid_child now r) env q invalid_child now r (λ e. tt) tt
      (λ row l c. absurd (none≢some (sym new ∙ l)))
      (λ res r' l c h. NewOutcome-FreshIfOk env q invalid_child now r r' res c h)
  where
    none≢some : {row : Allocation} → none ≡ some row → ⊥
    none≢some e = cc

pub prepare-Fresh :
    (env : Env) (q : Request) (invalid_child : ℕ → ℕ → Bool) (now : ℕ) (r r' : Registry)
    (made : Reservation)
    → load_allocation q.wallet_id q.operation_id r ≡ none
    → prepare_allocation_at env q invalid_child now r ≡ (ok made, r')
    → Fresh env q invalid_child now r made r'
prepare-Fresh env q invalid_child now r r' made new e =
    subst (λ p. FreshIfOk env q invalid_child now r p.0 p.1) e
      (prepare-FreshIfOk env q invalid_child now r new)
