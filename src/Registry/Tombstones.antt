-- ===== src/Registry/Tombstones.antt =====
-- Tombstones of crates/bloom-signer/src/derivation_registry.rs are permanent, and an index that has
-- one is never reserved again.
use bloom_signer.Prelude.{
  ℕ, ◌≡◌, ◌≢◌, sym, ◌∙◌, subst, Bool, true, false, List, [], ◌∷◌, ◌++◌, none, some, arith, any,
  Bool-cases, inl, inr,
}
use bloom_signer.Prelude.Result.{ok}
use bloom_signer.Registry.Types.{
  Registry, Env, Tombstone, TombstoneReason, is_tombstone, Allocation, tombstoned, state_eq,
  Reservation,
}
use bloom_signer.Registry.Path.{Profile}
use bloom_signer.Registry.Tables.{load_allocation, add_tombstone, record_invalid_child_tombstone}
use bloom_signer.Registry.Prepare.{Request, is_dead, add_skipped, prepare_allocation_at}
use bloom_signer.Registry.Changes.{Change, stay, reserve, refuse, move, bury, Buried}
use bloom_signer.Registry.Moves.{tombstone-Buried}
use bloom_signer.Registry.Paths.{profile_eq_refl}
use bloom_signer.Registry.Fresh.{prepare-Fresh}
use bloom_signer.Registry.Lifecycle.{tombstone, tombstone_reason}
use bloom_signer.Registry.Run.{Call, run, run-keeps}

-- The index of a namespace has a tombstone.
abbrev pub IsDead : ℕ → Profile → ℕ → ℕ → ℕ → Registry → Type 0
IsDead wallet profile role account index r =
    any (is_tombstone wallet profile role account index) r.tombstones ≡ true

module _ (test : Tombstone → Bool) where
  any-append :
      (rows : List Tombstone) (new : Tombstone)
      → any test rows ≡ true
      → any test (rows ++ new ∷ []) ≡ true
  unfolding any
  any-append [] new h = ground arith
  any-append (row ∷ rows) new h = ground (arith, any-append rows new)

  any-add_tombstone :
      (wallet : ℕ) (profile : Profile) (role account : ℕ) (reason : TombstoneReason) (now index : ℕ)
      (rows : List Tombstone)
      → any test rows ≡ true
      → any test (add_tombstone wallet profile role account reason now index rows) ≡ true
  unfolding add_tombstone
  any-add_tombstone wallet profile role account reason now index rows h =
      elim (Bool-cases (any (is_tombstone wallet profile role account index) rows)) [
        | inl old ↦ rw old h
        | inr new ↦ rw new (any-append rows _ h)
      ]

  any-add_skipped :
      (q : Request) (account now : ℕ) (skipped : List ℕ) (rows : List Tombstone)
      → any test rows ≡ true
      → any test (add_skipped q account now skipped rows) ≡ true
  unfolding add_skipped
  any-add_skipped q account now [] rows h = h
  any-add_skipped q account now (index ∷ skipped) rows h =
      any-add_skipped q account now skipped _
        (any-add_tombstone q.wallet_id q.profile q.role account _ now index rows h)

  Change-any :
      (env : Env) (r r' : Registry)
      → Change env r r'
      → any test r.tombstones ≡ true
      → any test r'.tombstones ≡ true
  unfolding record_invalid_child_tombstone
  Change-any env r r' (stay e) h = rw e h
  Change-any env r r' (reserve q _ now account start skipped ns made f e w) h =
      rw w.tombstones (any-add_skipped q account now skipped r.tombstones h)
  Change-any env r r' (refuse q now account index e) h =
      rw e (any-add_tombstone q.wallet_id q.profile q.role account _ now index r.tombstones h)
  Change-any env r r' (move wallet operation now from to change a m w) h = rw w.tombstones h
  Change-any env r r' (bury wallet operation now row w) h =
      rw w.tombstones
        (any-add_tombstone wallet row.profile row.role row.account _ now row.index r.tombstones h)

-- A reservation of a new operation id is never at an index with a tombstone.
pub prepare-not-IsDead :
    (env : Env) (q : Request) (invalid_child : ℕ → ℕ → Bool) (now index : ℕ) (r r' : Registry)
    (made : Reservation)
    → IsDead q.wallet_id q.profile q.role made.account index r
    → load_allocation q.wallet_id q.operation_id r ≡ none
    → prepare_allocation_at env q invalid_child now r ≡ (ok made, r')
    → made.index ≢ index
unfolding is_dead
prepare-not-IsDead env q invalid_child now index r r' made dead new e same =
    let f = prepare-Fresh env q invalid_child now r r' made new e in
    let alive : is_dead q f.account r f.start ≡ false = f.choice.alive in
    true≢false
      (subst (λ i. IsDead q.wallet_id q.profile q.role f.account i r)
        (sym same ∙ f.table.made_index.1)
        (subst (λ a. IsDead q.wallet_id q.profile q.role a index r) f.table.made_index.0 dead))
      alive
  where
    true≢false : {b : Bool} → b ≡ true → b ≡ false → ⊥
    true≢false h k = cc

is_tombstone_self :
    (wallet : ℕ) (profile : Profile) (role account index : ℕ) (reason : TombstoneReason) (now : ℕ)
    → is_tombstone wallet profile role account index (record {
      wallet_id = wallet;
      profile = profile;
      role = role;
      account = account;
      index = index;
      reason = reason;
      created_at_ms = now;
    })
      ≡ true
unfolding is_tombstone
is_tombstone_self wallet profile role account index reason now =
    ground (arith, profile_eq_refl profile)

any-append_self :
    (test : Tombstone → Bool) (rows : List Tombstone) (new : Tombstone)
    → test new ≡ true
    → any test (rows ++ new ∷ []) ≡ true
unfolding any
any-append_self test [] new h = ground arith
any-append_self test (row ∷ rows) new h = ground (arith, any-append_self test rows new h)

Buried-IsDead :
    (env : Env) (wallet operation now : ℕ) (row : Allocation) (r r' : Registry)
    → Buried env wallet operation now row r r'
    → IsDead wallet row.profile row.role row.account row.index r'
unfolding add_tombstone
Buried-IsDead env wallet operation now row r r' b = rw b.tombstones added
  where
    test : Tombstone → Bool
    test = is_tombstone wallet row.profile row.role row.account row.index

    added :
        any test (
          add_tombstone wallet row.profile row.role row.account
            (tombstone_reason row.state)
            now
            row.index
            r.tombstones)
        ≡ true
    added = elim (Bool-cases (any test r.tombstones)) [
      | inl old ↦ rw old old
      | inr new ↦ rw new (
          any-append_self test r.tombstones _
            (is_tombstone_self wallet row.profile row.role row.account row.index _ _))
    ]

-- After a live allocation is tombstoned, no history of calls lets a new operation of the same
-- wallet, profile, role and account reserve its index again.
pub tombstone-never_reused :
    (env : Env) (wallet operation now : ℕ) (row : Allocation) (r r' : Registry) (calls : List Call)
    (q : Request) (invalid_child : ℕ → ℕ → Bool) (later : ℕ) (r'' : Registry) (made : Reservation)
    → load_allocation wallet operation r ≡ some row
    → state_eq row.state tombstoned ≡ false
    → tombstone env wallet operation now r ≡ (ok tt, r')
    → (q.wallet_id ≡ wallet) × (q.profile ≡ row.profile) × (q.role ≡ row.role)
    → load_allocation q.wallet_id q.operation_id (run env calls r') ≡ none
    → prepare_allocation_at env q invalid_child later (run env calls r') ≡ (ok made, r'')
    → made.account ≡ row.account
    → made.index ≢ row.index
tombstone-never_reused env wallet operation now row r r' calls q invalid_child later r'' made loaded
      live done (same_wallet, same_profile, same_role) new e at_account =
    prepare-not-IsDead env q invalid_child later row.index (run env calls r') r'' made
      (rw (same_wallet, same_profile, same_role, at_account)
        (run-keeps (IsDead wallet row.profile row.role row.account row.index) env
          (Change-any (is_tombstone wallet row.profile row.role row.account row.index) env) calls r'
          (Buried-IsDead env wallet operation now row r r'
            (tombstone-Buried env wallet operation now row r r' loaded live done))))
      new e
