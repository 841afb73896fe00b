-- ===== src/Registry/Prepared.antt =====
-- What a successful `prepare_allocation_at` of crates/bloom-signer/src/derivation_registry.rs has
-- done to each table: the equations from which the registry's invariants follow.
use bloom_signer.Prelude.{
  ℕ, ◌≡◌, refl, Bool, false, List, [], ◌∷◌, ◌++◌, Option, none, some, any, find?,
}
use bloom_signer.Prelude.Result.{Result, ok, err, panic, ProtocolErrorCode, backend_invalid_request}
use bloom_signer.Prelude.Tx.{
  Post, ended, ok-Post, lift-Post, reject-Post, ok_or-Post, >>=-Post, Post-mono, bind, lift,
  committed,
}
use bloom_signer.Registry.Types.{
  Allocation, Namespace, Registry, Env, Reservation, AuditEvent, prepared, is_namespace, as_u32,
}
use bloom_signer.Registry.Path.{resolve_canonical_path}
use bloom_signer.Registry.Events.{append_event}
use bloom_signer.Registry.Tables.{
  add_namespace, record_invalid_child_tombstone, insert_allocation, collides, record_audit,
  ensure_namespace, load_allocation,
}
use bloom_signer.Registry.Prepare.{
  Request, Choice, chosen, invalid_target, choose_account, choose_index, check_capacity, reserve,
  act_on_choice, prepare_new, prepare_allocation_at, prepare_body, check_request, retry_existing,
  has_path, add_skipped, advance_counter,
}

-- A new row was inserted for the request.
pub record Reserved (env : Env) (q : Request) (now account counter start : ℕ) (skipped : List ℕ)
    (r : Registry) (made : Reservation) (r' : Registry) : Type 0 where
  pub new : Allocation
  pub same_key : (new.wallet_id ≡ q.wallet_id) × (new.operation_id ≡ q.operation_id)
  pub same_place : (new.profile ≡ q.profile) × (new.role ≡ q.role)
  pub at_account : new.account ≡ account
  pub at_index : new.index ≡ start
  pub canonical : resolve_canonical_path q.profile account start ≡ ok new.path
  pub new_state : new.state ≡ prepared
  pub fresh_path : any (has_path q.wallet_id q.profile new.path) r.allocations ≡ false
  pub fresh_key : any (collides new) r.allocations ≡ false
  pub allocations : r'.allocations ≡ r.allocations ++ new ∷ []
  pub namespaces : r'.namespaces ≡ advance_counter q account counter start r.namespaces
  pub tombstones : r'.tombstones ≡ add_skipped q account now skipped r.tombstones
  pub events : r'.events ≡ (append_event env q.wallet_id q.operation_id none prepared now r).events
  pub made_key :
      (made.operation_id ≡ q.operation_id) × (made.profile ≡ q.profile) × (made.role ≡ q.role)
  pub made_index : (made.account ≡ account) × (made.index ≡ start)
  pub made_path : (made.path ≡ new.path) × (made.state ≡ prepared)

-- The value that a transaction commits is `Ok` and satisfies `P`.
abbrev pub Returns : {A : Type 0} → (A → Type 0) → Result A → Type 0
Returns P (ok a) = P a
Returns P (err e) = ⊥
Returns P panic = ⊥

-- An insert succeeds when no row collides, and appends the row.
pub insert_allocation-Post :
    (new : Allocation) (r : Registry)
    → Post
        (λ _ s.
          (any (collides new) r.allocations ≡ false)
          × (s ≡ record r { allocations = r.allocations ++ new ∷ [] }))
        (insert_allocation new r)
unfolding insert_allocation
insert_allocation-Post new r = ok-Post _ (reject-Post _ _ λ free. ended (free, refl))

-- The recorder touches the journal alone.
pub record_audit-Post :
    (env : Env) (event : AuditEvent) (r : Registry)
    → Post
        (λ _ s. (env.audit event r.journal ≡ ok s.journal) × (s ≡ record r { journal = s.journal }))
        (record_audit env event r)
unfolding record_audit
record_audit-Post env event r = lift-Post _ λ journal e. ended (e, refl)

-- `ensure_namespace` adds the namespace of a known profile when it is missing.
pub ensure_namespace-Post :
    (q : Request) (account : ℕ) (r : Registry)
    → Post
        (λ _ s. s ≡ record r {
          namespaces = add_namespace q.wallet_id q.profile q.role account r.namespaces;
        })
        (ensure_namespace q.wallet_id q.profile q.role account r)
unfolding ensure_namespace
ensure_namespace-Post q account r = reject-Post _ _ λ _. ended refl

reserve-Reserved :
    (env : Env) (q : Request) (now account counter start : ℕ) (skipped : List ℕ) (r : Registry)
    → Post
        (λ made r'. Returns (λ m. Reserved env q now account counter start skipped r m r') made)
        (reserve env q now account counter start skipped r)
unfolding reserve append_event
reserve-Reserved env q now account counter start skipped r = lift-Post _ λ path canonical.
    ok-Post _ (
      reject-Post _ _ λ fresh_path. ok-Post _ (
        ok-Post _ (
          lift-Post _ λ spec _. >>=-Post (insert_allocation-Post _ _) λ _ s inserted. ok-Post _ (
            >>=-Post (record_audit-Post env _ _) λ _ s' audited. ended (record {
              new = record {
                wallet_id = q.wallet_id;
                operation_id = q.operation_id;
                profile = q.profile;
                role = q.role;
                account = account;
                index = start;
                path = path;
                state = prepared;
                key_spec = spec;
                public_key_spki_der = none;
                public_key_fingerprint = none;
                authority_committed = false;
                created_at_ms = now;
                updated_at_ms = now;
              };
              same_key = (refl, refl);
              same_place = (refl, refl);
              at_account = refl;
              at_index = refl;
              canonical = canonical;
              new_state = refl;
              fresh_path = fresh_path;
              fresh_key = inserted.0;
              allocations = rw (audited.1, inserted.1) refl;
              namespaces = rw (audited.1, inserted.1) refl;
              tombstones = rw (audited.1, inserted.1) refl;
              events = rw (audited.1, inserted.1) refl;
              made_key = (refl, refl, refl);
              made_index = (refl, refl);
              made_path = (refl, refl);
            })))))

-- The tables once the namespace is there.
abbrev pub with_namespace : Request → ℕ → Registry → Registry
with_namespace q account r = record r {
  namespaces = add_namespace q.wallet_id q.profile q.role account r.namespaces;
}

-- What the transaction for a new operation id commits: a new row, or the tombstone of an explicit
-- index that is an invalid child.
pub data NewOutcome (env : Env) (q : Request) (invalid_child : ℕ → ℕ → Bool) (now : ℕ)
    (r : Registry) : Result Reservation → Registry → Type 0 where
  reserved :
      (account start : ℕ) (skipped : List ℕ) (namespace : Namespace) {made : Reservation}
      {r' : Registry}
      → choose_account q r ≡ ok account
      → find?
          (is_namespace q.wallet_id q.profile q.role account)
          (with_namespace q account r).namespaces
        ≡ some namespace
      → check_capacity q account namespace (with_namespace q account r) ≡ ok tt
      → choose_index q invalid_child account
          (as_u32 namespace.next_index)
          (with_namespace q account r)
        ≡ ok (chosen start skipped)
      → Reserved env q now account
          (as_u32 namespace.next_index)
          start
          skipped
          (with_namespace q account r)
          made
          r'
      → NewOutcome env q invalid_child now r (ok made) r'
  target_refused :
      (account start index : ℕ) {r' : Registry}
      → choose_index q invalid_child account start (with_namespace q account r)
        ≡ ok (invalid_target index)
      → r'
        ≡ record_invalid_child_tombstone q.wallet_id q.profile q.role account now index
            (with_namespace q account r)
      → NewOutcome env q invalid_child now r (err backend_invalid_request) r'

act_on_choice-NewOutcome :
    (env : Env) (q : Request) (invalid_child : ℕ → ℕ → Bool) (now account : ℕ)
    (namespace : Namespace) (r : Registry) (choice : Choice)
    → choose_account q r ≡ ok account
    → find?
        (is_namespace q.wallet_id q.profile q.role account)
        (with_namespace q account r).namespaces
      ≡ some namespace
    → check_capacity q account namespace (with_namespace q account r) ≡ ok tt
    → choose_index q invalid_child account
        (as_u32 namespace.next_index)
        (with_namespace q account r)
      ≡ ok choice
    → Post (NewOutcome env q invalid_child now r) (
        act_on_choice env q now account
          (as_u32 namespace.next_index)
          choice
          (with_namespace q account r))
unfolding act_on_choice
act_on_choice-NewOutcome env q invalid_child now account namespace r (chosen start skipped) a f c
      e =
    Post-mono (λ made r' h. from_made made r' h)
      (reserve-Reserved env q now account (as_u32 namespace.next_index) start skipped
        (with_namespace q account r))
  where
    from_made :
        (made : Result Reservation) (r' : Registry)
        → Returns
            (λ m.
              Reserved env q now account
                (as_u32 namespace.next_index)
                start
                skipped
                (with_namespace q account r)
                m
                r')
            made
        → NewOutcome env q invalid_child now r made r'
    from_made (ok m) r' h = reserved account start skipped namespace a f c e h
    from_made (err _) r' h = elim h [ ]
    from_made panic r' h = elim h [ ]
act_on_choice-NewOutcome env q invalid_child now account namespace r (invalid_target index) a f c
      e =
    ok-Post _ (ended (target_refused account (as_u32 namespace.next_index) index e refl))

pub prepare_new-NewOutcome :
    (env : Env) (q : Request) (invalid_child : ℕ → ℕ → Bool) (now : ℕ) (r : Registry)
    → Post (NewOutcome env q invalid_child now r) (prepare_new env q invalid_child now r)
unfolding prepare_new
prepare_new-NewOutcome env q invalid_child now r = lift-Post _ λ account a.
    >>=-Post (ensure_namespace-Post q account r) λ _ s e. rw e (
      ok-Post _ (
        ok_or-Post _ _ λ namespace f. lift-Post _ λ _ c. lift-Post _ λ choice chose.
          act_on_choice-NewOutcome env q invalid_child now account namespace r choice a f c chose))

-- What a call has done, by how it ended: an error or a panic changes nothing, an operation id with
-- a row is answered from it, and any other has the outcome above.
pub prepare-cases :
    (P : Result Reservation → Registry → Type 0) (env : Env) (q : Request)
    (invalid_child : ℕ → ℕ → Bool) (now : ℕ) (r : Registry)
    → ((e : ProtocolErrorCode) → P (err e) r)
    → P panic r
    → ((row : Allocation)
        → load_allocation q.wallet_id q.operation_id r ≡ some row
        → check_request q ≡ ok tt
        → P (retry_existing q row) r)
    → ((res : Result Reservation) (r' : Registry)
        → load_allocation q.wallet_id q.operation_id r ≡ none
        → check_request q ≡ ok tt
        → NewOutcome env q invalid_child now r res r'
        → P res r')
    → P
        (prepare_allocation_at env q invalid_child now r).0
        (prepare_allocation_at env q invalid_child now r).1
unfolding prepare_allocation_at bind lift prepare_body
prepare-cases P env q invalid_child now r errors panics retried fresh = by_check _ refl
  where
    by_new :
        (res : Result (Result Reservation × Registry))
        → check_request q ≡ ok tt
        → load_allocation q.wallet_id q.operation_id r ≡ none
        → Post (NewOutcome env q invalid_child now r) res
        → P (committed r res).0 (committed r res).1
    by_new (ok (res, r')) c l h = fresh res r' l c h.holds
    by_new (err e) c l h = errors e
    by_new panic c l h = panics

    by_row :
        (row : Option Allocation)
        → check_request q ≡ ok tt
        → load_allocation q.wallet_id q.operation_id r ≡ row
        → P
            (committed r (prepare_body env q invalid_child now row r)).0
            (committed r (prepare_body env q invalid_child now row r)).1
    by_row (some row) c l = retried row l c
    by_row none c l = by_new _ c l (prepare_new-NewOutcome env q invalid_child now r)

    by_check :
        (c : Result (Unit {0}))
        → check_request q ≡ c
        → P
            (committed r (
              bind (lift c r) (λ _ s.
                bind
                  (ok (load_allocation q.wallet_id q.operation_id s, s))
                  (prepare_body env q invalid_child now)))).0
            (committed r (
              bind (lift c r) (λ _ s.
                bind
                  (ok (load_allocation q.wallet_id q.operation_id s, s))
                  (prepare_body env q invalid_child now)))).1
    by_check (ok _) c = by_row _ c refl
    by_check (err e) c = errors e
    by_check panic c = panics
