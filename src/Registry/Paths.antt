-- ===== src/Registry/Paths.antt =====
-- Paths are never shared: `prepare_allocation_at` of
-- crates/bloom-signer/src/derivation_registry.rs checks a path's owner across all roles.
use bloom_signer.Prelude.{
  ◌≡◌, refl, Bool, true, false, List, [], ◌∷◌, ◌++◌, arith, bytes_eq→eq, bytes_eq_refl, any,
  update_where, if◌then◌else◌,
}
use bloom_signer.Registry.Types.{Allocation, Registry, Env, AllocationState, tombstoned}
use bloom_signer.Registry.Path.{Profile, evm, solana, other_profile, profile_eq}
use bloom_signer.Registry.Tables.{record_invalid_child_tombstone}
use bloom_signer.Registry.Prepare.{has_path}
use bloom_signer.Registry.Changes.{Change, stay, reserve, refuse, move, bury, IsMove}
use bloom_signer.Registry.Moves.{set_state-IsMove}
use bloom_signer.Registry.Run.{Call, run, run-keeps}

pub profile_eq→eq : (p q : Profile) → profile_eq p q ≡ true → p ≡ q
unfolding profile_eq
profile_eq→eq evm evm h = refl
profile_eq→eq solana solana h = refl
profile_eq→eq (other_profile a) (other_profile b) h = ground arith
profile_eq→eq evm solana h = ground arith
profile_eq→eq evm (other_profile b) h = ground arith
profile_eq→eq solana evm h = ground arith
profile_eq→eq solana (other_profile b) h = ground arith
profile_eq→eq (other_profile a) evm h = ground arith
profile_eq→eq (other_profile a) solana h = ground arith

pub profile_eq_refl : (p : Profile) → profile_eq p p ≡ true
unfolding profile_eq
profile_eq_refl evm = refl
profile_eq_refl solana = refl
profile_eq_refl (other_profile a) = ground arith

-- Two rows belong to one wallet and profile and have one path.
abbrev pub shares_path : Allocation → Allocation → Bool
shares_path a b = has_path a.wallet_id a.profile a.path b

-- No two rows share a path.
abbrev pub HasDistinctPaths : List Allocation → Type 0
HasDistinctPaths [] = Unit {0}
HasDistinctPaths (row ∷ rows) = (any (shares_path row) rows ≡ false) × HasDistinctPaths rows

shares_path_sym : (a b : Allocation) → shares_path b a ≡ false → shares_path a b ≡ false
unfolding has_path
shares_path_sym a b h = ground (
  arith,
  bytes_eq→eq a.path b.path,
  bytes_eq→eq b.path a.path,
  bytes_eq_refl a.path,
  bytes_eq_refl b.path,
  profile_eq→eq a.profile b.profile,
  profile_eq→eq b.profile a.profile,
  profile_eq_refl a.profile,
  profile_eq_refl b.profile,
)

any-append_last :
    (row new : Allocation) (rows : List Allocation)
    → any (shares_path row) rows ≡ false
    → shares_path row new ≡ false
    → any (shares_path row) (rows ++ new ∷ []) ≡ false
unfolding any
any-append_last row new [] h k = ground arith
any-append_last row new (x ∷ rows) h k = ground (arith, any-append_last row new rows)

append-HasDistinctPaths :
    (new : Allocation) (rows : List Allocation)
    → any (shares_path new) rows ≡ false
    → HasDistinctPaths rows
    → HasDistinctPaths (rows ++ new ∷ [])
unfolding any
append-HasDistinctPaths new [] free h = (refl, tt)
append-HasDistinctPaths new (row ∷ rows) free h = (
  any-append_last row new rows h.0 (shares_path_sym row new (ground arith)),
  append-HasDistinctPaths new rows (ground arith) h.1,
)

-- A change of rows that leaves the wallet, the profile and the path alone.
abbrev KeepsPath : (Allocation → Allocation) → Type 0
KeepsPath change =
    (row : Allocation)
    → ((change row).wallet_id ≡ row.wallet_id)
      × ((change row).profile ≡ row.profile)
      × ((change row).path ≡ row.path)

module _ (test : Allocation → Bool) (change : Allocation → Allocation)
    (keep : KeepsPath change) where
  any-update_where :
      (a : Allocation) (rows : List Allocation)
      → any (shares_path a) (update_where test change rows) ≡ any (shares_path a) rows
  unfolding any update_where has_path
  any-update_where a [] = refl
  any-update_where a (row ∷ rows) = ground (arith, any-update_where a rows, keep row)

  shares_path-change : (a b : Allocation) → shares_path (change a) b ≡ shares_path a b
  unfolding has_path
  shares_path-change a b = ground (arith, keep a)

  any-change :
      (a : Allocation) (rows : List Allocation)
      → any (shares_path (change a)) rows ≡ any (shares_path a) rows
  unfolding any
  any-change a [] = refl
  any-change a (row ∷ rows) = ground (arith, any-change a rows, shares_path-change a row)

  update_where-HasDistinctPaths :
      (rows : List Allocation)
      → HasDistinctPaths rows
      → HasDistinctPaths (update_where test change rows)
  unfolding update_where
  update_where-HasDistinctPaths [] h = tt
  update_where-HasDistinctPaths (row ∷ rows) h =
      (first (test row), update_where-HasDistinctPaths rows h.1)
    where
      first :
          (hit : Bool)
          → any (shares_path (if hit then change row else row)) (update_where test change rows)
            ≡ false
      first true = rw (any-update_where (change row) rows, any-change row rows) h.0
      first false = rw (any-update_where row rows) h.0

IsMove-KeepsPath :
    {to : AllocationState} {change : Allocation → Allocation} → IsMove to change → KeepsPath change
IsMove-KeepsPath m row = ((m.same_key row).0, (m.same_place row).0, (m.same_place row).4)

Change-HasDistinctPaths :
    (env : Env) (r r' : Registry)
    → Change env r r'
    → HasDistinctPaths r.allocations
    → HasDistinctPaths r'.allocations
unfolding record_invalid_child_tombstone
Change-HasDistinctPaths env r r' (stay e) h = rw e h
Change-HasDistinctPaths env r r' (reserve q _ now account start skipped ns made f e w) h =
    rw w.allocations (
      append-HasDistinctPaths w.new r.allocations (rw (w.same_key.0, w.same_place.0) w.fresh_path)
        h)
Change-HasDistinctPaths env r r' (refuse q now account index e) h = rw e h
Change-HasDistinctPaths env r r' (move wallet operation now from to change a m w) h =
    rw w.allocations (update_where-HasDistinctPaths _ change (IsMove-KeepsPath m) r.allocations h)
Change-HasDistinctPaths env r r' (bury wallet operation now row w) h = rw w.allocations (
    update_where-HasDistinctPaths _ _ (IsMove-KeepsPath (set_state-IsMove tombstoned now))
      r.allocations h)

-- If no two rows of one wallet and profile have one path, whatever their roles and states, then
-- none have after any history of calls.
pub run-HasDistinctPaths :
    (env : Env) (calls : List Call) (r : Registry)
    → HasDistinctPaths r.allocations
    → HasDistinctPaths (run env calls r).allocations
run-HasDistinctPaths env =
    run-keeps (λ r. HasDistinctPaths r.allocations) env (Change-HasDistinctPaths env)
