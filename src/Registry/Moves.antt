-- ===== src/Registry/Moves.antt =====
-- Each transition of crates/bloom-signer/src/derivation_registry.rs is a change of the relation in
-- Registry/Changes.antt.
use bloom_signer.Prelude.{
  ℕ, ◌≡◌, refl, true, false, inl, inr, List, some, any, update_where, Bool-cases, arith,
}
use bloom_signer.Prelude.Result.{Result, ok}
use bloom_signer.Prelude.Tx.{
  Post, ended, ok-Post, reject-Post, ok_or-Post, >>=-Post, Post-mono, settled-keeps, settled-ok,
  Post-ok, bind, ok_or, reject-last, ok_or-last,
}
use bloom_signer.Registry.Types.{
  AllocationState, prepared, index_committed, account_committed, activated, retired, tombstoned,
  state_eq, Allocation, Registry, Env, AuditKind, AuditEvent,
}
use bloom_signer.Registry.Events.{append_event}
use bloom_signer.Registry.Tables.{load_allocation, state_of, reservation_of}
use bloom_signer.Registry.Lifecycle.{
  is_in_state, update_in_state, set_state, transition, allocation_keys, audited_transition,
  commit_index_body, commit_index, set_descriptor, check_descriptor, commit_account_body,
  commit_account, public_of, activate_body, activate, retire, tombstone_row, tombstone,
  is_account_done,
}
use bloom_signer.Registry.Changes.{
  Change, stay, move, bury, Moved, Buried, IsMove, commitment, descriptor, activation, retirement,
}
use bloom_signer.Registry.Prepared.{record_audit-Post}

pub set_state-IsMove : (to : AllocationState) (now : ℕ) → IsMove to (set_state to now)
unfolding set_state
set_state-IsMove to now = record {
  same_key = λ row. (refl, refl);
  same_place = λ row. (refl, refl, refl, refl, refl);
  arrives = λ row. refl;
}

set_descriptor-IsMove :
    (spki fingerprint : List ℕ) (now : ℕ)
    → IsMove account_committed (set_descriptor spki fingerprint now)
unfolding set_descriptor
set_descriptor-IsMove spki fingerprint now = record {
  same_key = λ row. (refl, refl);
  same_place = λ row. (refl, refl, refl, refl, refl);
  arrives = λ row. refl;
}

update_in_state-Post :
    (wallet operation : ℕ) (from : AllocationState) (change : Allocation → Allocation)
    (r : Registry)
    → Post
        (λ _ s.
          (any (is_in_state wallet operation from) r.allocations ≡ true)
          × (s ≡ record r {
            allocations = update_where (is_in_state wallet operation from) change r.allocations;
          }))
        (update_in_state wallet operation from change r)
unfolding update_in_state
update_in_state-Post wallet operation from change r =
    ok-Post _ (reject-Post _ _ λ hit. ended (ground arith, refl))

allocation_keys-Post :
    (wallet operation : ℕ) (r : Registry)
    → Post
        (λ row s. (s ≡ r) × (load_allocation wallet operation r ≡ some row))
        (allocation_keys wallet operation r)
unfolding allocation_keys
allocation_keys-Post wallet operation r = ok-Post _ (ok_or-last _ _ λ row e. (refl, e))

state_of-Post :
    (wallet operation : ℕ) (r : Registry) → Post (λ _ s. s ≡ r) (state_of wallet operation r)
unfolding state_of
state_of-Post wallet operation r = ok-Post _ (ok_or-Post _ _ λ row e. ended refl)

reservation_of-Post :
    (wallet operation : ℕ) (r : Registry) → Post (λ _ s. s ≡ r) (reservation_of wallet operation r)
unfolding reservation_of
reservation_of-Post wallet operation r = ok-Post _ (ok_or-Post _ _ λ row e. ended refl)

public_of-Post :
    (wallet operation : ℕ) (r : Registry) → Post (λ _ s. s ≡ r) (public_of wallet operation r)
unfolding public_of
public_of-Post wallet operation r = ok-Post _ (
    ok_or-Post _ _ λ row e.
      reject-Post _ _ λ live. ok_or-Post _ _ λ spki f. ok_or-Post _ _ λ fingerprint g. ended refl)

-- The row is updated and the event appended; the journal may then change.
update-Moved :
    (env : Env) (wallet operation now : ℕ) (from to : AllocationState)
    (change : Allocation → Allocation) (r s : Registry) (journal : List AuditEvent)
    → any (is_in_state wallet operation from) r.allocations ≡ true
    → s ≡ record r {
      allocations = update_where (is_in_state wallet operation from) change r.allocations;
    }
    → Moved env wallet operation now from to change r
        (record (append_event env wallet operation (some from) to now s) { journal = journal })
unfolding append_event
update-Moved env wallet operation now from to change r s journal hit e =
    rw e (record {
      hit = hit;
      allocations = refl;
      namespaces = refl;
      tombstones = refl;
      events = refl;
    })

transition-Post :
    (env : Env) (wallet operation now : ℕ) (from to : AllocationState) (r : Registry)
    → Post
        (λ _ s'.
          (journal : List AuditEvent)
          → Moved env wallet operation now from to
              (set_state to now)
              r
              (record s' { journal = journal }))
        (transition env wallet operation from to now r)
unfolding transition
transition-Post env wallet operation now from to r =
    >>=-Post (update_in_state-Post wallet operation from (set_state to now) r)
      λ _ s h. ended λ journal. update-Moved env wallet operation now from to _ r s journal h.0 h.1

audited_transition-Moved :
    (env : Env) (kind : AuditKind) (wallet operation now : ℕ) (from to : AllocationState)
    (r : Registry)
    → Post
        (λ _ s. Moved env wallet operation now from to (set_state to now) r s)
        (audited_transition env kind wallet operation from to now r)
unfolding audited_transition
audited_transition-Moved env kind wallet operation now from to r =
    >>=-Post (allocation_keys-Post wallet operation r) λ row s read. rw read.0 (
      >>=-Post (transition-Post env wallet operation now from to r) λ _ s' moved.
        Post-mono (λ _ t audited. rw audited.1 (moved t.journal)) (record_audit-Post env _ s'))

-- A call that reads only.
reading :
    {A : Type 0} (env : Env) (r : Registry) {res : Result (A × Registry)}
    → Post (λ _ s. s ≡ r) res
    → Post (λ _ s. Change env r s) res
reading env r = Post-mono λ _ s e. stay e

commit_index_body-Change :
    (env : Env) (wallet operation now : ℕ) (current : AllocationState) (r : Registry)
    → Post (λ _ s. Change env r s) (commit_index_body env wallet operation now current r)
unfolding commit_index_body state_eq
commit_index_body-Change env wallet operation now prepared r =
    >>=-Post (audited_transition-Moved env _ wallet operation now prepared index_committed r)
      λ _ s m.
        Post-mono
          (λ _ t e. rw e (
            move wallet operation now prepared index_committed _ commitment (set_state-IsMove _ now)
              m))
          (reservation_of-Post wallet operation s)
commit_index_body-Change env wallet operation now index_committed r =
    reading env r (reservation_of-Post wallet operation r)
commit_index_body-Change env wallet operation now account_committed r =
    reading env r (reservation_of-Post wallet operation r)
commit_index_body-Change env wallet operation now activated r =
    reading env r (reservation_of-Post wallet operation r)
commit_index_body-Change env wallet operation now retired r = record { holds = tt }
commit_index_body-Change env wallet operation now tombstoned r = record { holds = tt }

pub commit_index-Change :
    (env : Env) (wallet operation now : ℕ) (r : Registry)
    → Change env r (commit_index env wallet operation now r).1
unfolding commit_index
commit_index-Change env wallet operation now r = settled-keeps (Change env r) r _ (stay refl) (
    >>=-Post (state_of-Post wallet operation r)
      λ current s e. rw e (commit_index_body-Change env wallet operation now current r))

-- The part of `commit_account` that writes.
write_descriptor-Change :
    (env : Env) (wallet operation : ℕ) (spki fingerprint : List ℕ) (now : ℕ)
    (current : AllocationState) (r : Registry)
    → is_account_done current ≡ false
    → Post
        (λ _ s. Change env r s)
        (commit_account_body env wallet operation spki fingerprint now current r)
unfolding commit_account_body
write_descriptor-Change env wallet operation spki fingerprint now current r fresh = rw fresh (
    >>=-Post
      (update_in_state-Post wallet operation index_committed (set_descriptor spki fingerprint now)
        r)
      λ _ s h. ok-Post _ (
        >>=-Post (allocation_keys-Post wallet operation _) λ row t read. rw read.0 (
          >>=-Post (record_audit-Post env _ _) λ _ u audited.
            Post-mono
              (λ _ v e. rw e (
                rw audited.1 (
                  move wallet operation now index_committed account_committed _ descriptor
                    (set_descriptor-IsMove spki fingerprint now)
                    (update-Moved env wallet operation now index_committed account_committed _ r s
                      u.journal h.0 h.1))))
              (reservation_of-Post wallet operation u))))

commit_account_body-Change :
    (env : Env) (wallet operation : ℕ) (spki fingerprint : List ℕ) (now : ℕ)
    (current : AllocationState) (r : Registry)
    → Post
        (λ _ s. Change env r s)
        (commit_account_body env wallet operation spki fingerprint now current r)
unfolding commit_account_body
commit_account_body-Change env wallet operation spki fingerprint now current r =
    elim (Bool-cases (is_account_done current)) [
      | inl done ↦ rw done (reading env r (reservation_of-Post wallet operation r))
      | inr fresh ↦
          write_descriptor-Change env wallet operation spki fingerprint now current r fresh
    ]

check_descriptor-Post :
    (env : Env) (spki fingerprint : List ℕ) (r : Registry)
    → Post (λ _ s. s ≡ r) (check_descriptor env spki fingerprint r)
unfolding check_descriptor
check_descriptor-Post env spki fingerprint r =
    ok_or-Post _ _ λ decoded e. reject-last _ _ λ same. refl

pub commit_account-Change :
    (env : Env) (wallet operation : ℕ) (spki fingerprint : List ℕ) (now : ℕ) (r : Registry)
    → Change env r (commit_account env wallet operation spki fingerprint now r).1
unfolding commit_account
commit_account-Change env wallet operation spki fingerprint now r =
    settled-keeps (Change env r) r _ (stay refl) (
      >>=-Post (check_descriptor-Post env spki fingerprint r) λ _ s e. rw e (
        >>=-Post (state_of-Post wallet operation r) λ current t f.
          rw f (commit_account_body-Change env wallet operation spki fingerprint now current r)))

activate_body-Change :
    (env : Env) (wallet operation now : ℕ) (current : AllocationState) (r : Registry)
    → Post (λ _ s. Change env r s) (activate_body env wallet operation now current r)
unfolding activate_body
activate_body-Change env wallet operation now current r =
    elim (Bool-cases (state_eq current activated)) [
      | inl done ↦ rw done (reading env r (public_of-Post wallet operation r))
      | inr fresh ↦ rw fresh (
          >>=-Post
            (audited_transition-Moved env _ wallet operation now account_committed activated r)
            λ _ s m.
              Post-mono
                (λ _ t e. rw e (
                  move wallet operation now account_committed activated _ activation
                    (set_state-IsMove _ now) m))
                (public_of-Post wallet operation s))
    ]

pub activate-Change :
    (env : Env) (wallet operation now : ℕ) (r : Registry)
    → Change env r (activate env wallet operation now r).1
unfolding activate
activate-Change env wallet operation now r = settled-keeps (Change env r) r _ (stay refl) (
    >>=-Post (state_of-Post wallet operation r)
      λ current s e. rw e (activate_body-Change env wallet operation now current r))

pub retire-Change :
    (env : Env) (wallet operation now : ℕ) (r : Registry)
    → Change env r (retire env wallet operation now r).1
unfolding retire
retire-Change env wallet operation now r = settled-keeps (Change env r) r _ (stay refl) (
    Post-mono
      (λ _ s m. move wallet operation now activated retired _ retirement (set_state-IsMove _ now) m)
      (audited_transition-Moved env _ wallet operation now activated retired r))

pub tombstone_row-Buried :
    (env : Env) (wallet operation now : ℕ) (row : Allocation) (r : Registry)
    → load_allocation wallet operation r ≡ some row
    → Post
        (λ _ s. Buried env wallet operation now row r s)
        (tombstone_row env wallet operation now row r)
unfolding tombstone_row append_event
tombstone_row-Buried env wallet operation now row r found = ok-Post _ (
    ok-Post _ (
      Post-mono
        (λ _ s audited. record {
          loaded = found;
          allocations = rw audited.1 refl;
          namespaces = rw audited.1 refl;
          tombstones = rw audited.1 refl;
          events = rw audited.1 refl;
        })
        (record_audit-Post env _ _)))

pub tombstone-Change :
    (env : Env) (wallet operation now : ℕ) (r : Registry)
    → Change env r (tombstone env wallet operation now r).1
unfolding tombstone
tombstone-Change env wallet operation now r = settled-keeps (Change env r) r _ (stay refl) (
    ok-Post _ (
      ok_or-Post _ _ λ row found. elim (Bool-cases (state_eq row.state tombstoned)) [
        | inl dead ↦ rw dead (ended (stay refl))
        | inr live ↦ rw live (
            Post-mono (λ _ s b. bury wallet operation now row b)
              (tombstone_row-Buried env wallet operation now row r found))
      ]))

-- A tombstone of a live row that returned `Ok`.
pub tombstone-Buried :
    (env : Env) (wallet operation now : ℕ) (row : Allocation) (r r' : Registry)
    → load_allocation wallet operation r ≡ some row
    → state_eq row.state tombstoned ≡ false
    → tombstone env wallet operation now r ≡ (ok tt, r')
    → Buried env wallet operation now row r r'
unfolding tombstone ok_or bind
tombstone-Buried env wallet operation now row r r' found live e =
    Post-ok (tombstone_row-Buried env wallet operation now row r found)
      (settled-ok r _ (rw (found, live) at e))
