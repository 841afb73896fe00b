-- ===== src/Registry/Retry.antt =====
-- A retry of `prepare_allocation_at` of crates/bloom-signer/src/derivation_registry.rs returns the
-- original reservation.
use bloom_signer.Prelude.{
  ℕ, ◌<◌, ◌≡◌, refl, sym, ◌∙◌, ap, Bool, true, false, List, Option, none, some, arith, update_where,
  ◌==◌, if◌then◌else◌, leb,
}
use bloom_signer.Prelude.Rows.{find?-append_some, find?-append_none, find?-update_where}
use bloom_signer.Prelude.Result.{ok}
use bloom_signer.Prelude.Tx.{bind, lift}
use bloom_signer.Derive.Walk.{u32_size}
use bloom_signer.Registry.Types.{
  Allocation, AllocationState, Registry, Env, Reservation, is_operation, as_u32, tombstoned,
}
use bloom_signer.Registry.Path.{profile_eq}
use bloom_signer.Registry.Tables.{load_allocation, record_invalid_child_tombstone}
use bloom_signer.Registry.Prepare.{
  Request, check_request, is_same_request, existing_reservation, retry_existing, choose_account,
  next_account, is_none_or, highest_account, prepare_body, prepare_allocation_at, child_limit,
}
use bloom_signer.Registry.Changes.{Change, stay, reserve, refuse, move, bury, IsMove}
use bloom_signer.Registry.Moves.{set_state-IsMove}
use bloom_signer.Registry.Paths.{profile_eq_refl}
use bloom_signer.Registry.Fresh.{Fresh, prepare-Fresh, IsChosen}
use bloom_signer.Registry.Run.{Call, run, run-keeps}

-- Two rows are the same reservation, whatever their states.
pub record IsSamePlace (a b : Allocation) : Type 0 where
  pub same_profile : b.profile ≡ a.profile
  pub same_role : b.role ≡ a.role
  pub same_account : b.account ≡ a.account
  pub same_index : b.index ≡ a.index
  pub same_path : b.path ≡ a.path

-- The operation id's row is still the reservation `a`.
abbrev pub StillHas : ℕ → ℕ → Allocation → Registry → Type 0
StillHas wallet operation a r =
    (row : Allocation) × (load_allocation wallet operation r ≡ some row) × IsSamePlace a row

module _ (wallet operation : ℕ) (a : Allocation) where
  update-StillHas :
      (hit : Allocation → Bool) (to : AllocationState) (change : Allocation → Allocation)
      (r r' : Registry)
      → IsMove to change
      → r'.allocations ≡ update_where hit change r.allocations
      → StillHas wallet operation a r
      → StillHas wallet operation a r'
  unfolding load_allocation is_operation
  update-StillHas hit to change r r' m e (row, found, same) = (
    (if hit row then change row else row),
    rw e (
        find?-update_where (is_operation wallet operation) hit change r.allocations row reads
          found),
    place (hit row),
  )
    where
      reads :
          (x : Allocation)
          → is_operation wallet operation (change x) ≡ is_operation wallet operation x
      reads x = rw (m.same_key x).0 (rw (m.same_key x).1 refl)

      place : (b : Bool) → IsSamePlace a (if b then change row else row)
      place true = ground (arith, m.same_place row)
      place false = same

  Change-StillHas :
      (env : Env) (r r' : Registry)
      → Change env r r'
      → StillHas wallet operation a r
      → StillHas wallet operation a r'
  unfolding load_allocation record_invalid_child_tombstone
  Change-StillHas env r r' (stay e) h = rw e h
  Change-StillHas env r r' (reserve q _ now account start skipped ns made f e w)
        (row, found, same) =
      (
        row,
        rw w.allocations
            (find?-append_some (is_operation wallet operation) r.allocations w.new row found),
        same,
      )
  Change-StillHas env r r' (refuse q now account index e) (row, found, same) =
      (row, rw e found, same)
  Change-StillHas env r r' (move w o now from to change arrow m moved) h =
      update-StillHas _ to change r r' m moved.allocations h
  Change-StillHas env r r' (bury w o now row b) h =
      update-StillHas _ tombstoned _ r r' (set_state-IsMove tombstoned now) b.allocations h

next_account-small :
    (highest : Option ℕ) (account : ℕ) → next_account highest ≡ ok account → account < child_limit
unfolding next_account
next_account-small none account e = ground arith
next_account-small (some h) account e = ground arith

-- An index below the limit of the checks is below the size of a `u32`.
below_limit : (n : ℕ) → leb child_limit n ≡ false → n < u32_size
below_limit n h = ground arith

-- The checks have refused an account or an index of a target that is too large.
checked_account :
    (q : Request) (account : ℕ)
    → q.account ≡ some account
    → check_request q ≡ ok tt
    → leb child_limit account ≡ false
unfolding check_request
checked_account q account e c = ground arith

checked_target :
    (q : Request) (index : ℕ)
    → q.target_index ≡ some index
    → check_request q ≡ ok tt
    → leb child_limit index ≡ false
unfolding check_request
checked_target q index e c = ground arith

given_account :
    (q : Request) (r : Registry) (given account : ℕ)
    → q.account ≡ some given
    → choose_account q r ≡ ok account
    → given ≡ account
unfolding choose_account
given_account q r given account e h = ground arith

-- The account of a reservation fits a `u32`.
choose_account-small :
    (q : Request) (r : Registry) (given : Option ℕ) (account : ℕ)
    → q.account ≡ given
    → check_request q ≡ ok tt
    → choose_account q r ≡ ok account
    → account < u32_size
unfolding check_request choose_account
choose_account-small q r none account e c h =
    ground (arith, next_account-small (highest_account q.wallet_id q.profile r) account)
choose_account-small q r (some given) account e c h =
    below_limit account
      (checked_account q account (e ∙ ap some (given_account q r given account e h)) c)

-- The index of a reservation fits a `u32`.
IsChosen-small :
    (q : Request) (invalid_child : ℕ → ℕ → Bool) (r : Registry) (target : Option ℕ)
    (account counter start : ℕ)
    → q.target_index ≡ target
    → check_request q ≡ ok tt
    → IsChosen q invalid_child account counter start r
    → start < u32_size
unfolding check_request
IsChosen-small q invalid_child r none account counter start e c h = (h.fits e).1
IsChosen-small q invalid_child r (some index) account counter start e c h =
    rw (h.targeted index e) (below_limit index (checked_target q index e c))

-- The row of a fresh reservation.
Fresh-StillHas :
    (env : Env) (q : Request) (invalid_child : ℕ → ℕ → Bool) (now : ℕ) (r r' : Registry)
    (made : Reservation) (f : Fresh env q invalid_child now r made r')
    → load_allocation q.wallet_id q.operation_id r ≡ none
    → StillHas q.wallet_id q.operation_id f.table.new r'
unfolding load_allocation is_operation
Fresh-StillHas env q invalid_child now r r' made f new = (
  f.table.new,
  rw f.table.allocations (
      find?-append_none (is_operation q.wallet_id q.operation_id) r.allocations f.table.new new
        (ground (arith, f.table.same_key))),
  record {
    same_profile = refl;
    same_role = refl;
    same_account = refl;
    same_index = refl;
    same_path = refl;
  },
)

-- What a retry returns: the reservation with the lifecycle state that the row has by now.
pub record IsSameReservation (made again : Reservation) : Type 0 where
  pub same_operation : again.operation_id ≡ made.operation_id
  pub same_profile : again.profile ≡ made.profile
  pub same_role : again.role ≡ made.role
  pub same_account : again.account ≡ made.account
  pub same_index : again.index ≡ made.index
  pub same_path : again.path ≡ made.path

is_none_or-same :
    (given : Option ℕ) (n : ℕ)
    → ((g : ℕ) → given ≡ some g → g ≡ n)
    → is_none_or given (λ g. n == g) ≡ true
is_none_or-same none n h = refl
is_none_or-same (some g) n h = let e = h g refl in ground arith

module _ (env : Env) (q : Request) (invalid_child : ℕ → ℕ → Bool) (now : ℕ) (r r' : Registry)
    (made : Reservation) (f : Fresh env q invalid_child now r made r') where
  small : (f.account < u32_size) × (f.start < u32_size)
  small = (
    choose_account-small q r q.account f.account refl f.checked f.account_chosen,
    IsChosen-small q invalid_child _ q.target_index f.account _ f.start refl f.checked f.choice,
  )

  row_matches : (row : Allocation) → IsSamePlace f.table.new row → is_same_request q row ≡ true
  unfolding is_same_request
  row_matches row same =
      let profile : profile_eq row.profile q.profile ≡ true =
        rw (same.same_profile ∙ f.table.same_place.0) (profile_eq_refl q.profile) in
      let role = same.same_role ∙ f.table.same_place.1 in
      let account = is_none_or-same q.account row.account λ g e.
        given_account q r g f.account e f.account_chosen
        ∙ sym (same.same_account ∙ f.table.at_account) in
      let index =
        is_none_or-same q.target_index row.index
          λ g e. sym (f.choice.targeted g e) ∙ sym (same.same_index ∙ f.table.at_index) in
      matches profile role account index
    where
      matches :
          profile_eq row.profile q.profile ≡ true
          → row.role ≡ q.role
          → is_none_or q.account (λ account. row.account == account) ≡ true
          → is_none_or q.target_index (λ index. row.index == index) ≡ true
          → is_same_request q row ≡ true
      matches p e a i = rw p (rw a (rw i (ground arith)))

  retry_row :
      (row : Allocation)
      → IsSamePlace f.table.new row
      → IsSameReservation made (existing_reservation q row)
  unfolding existing_reservation
  retry_row row same =
      let account = same.same_account ∙ f.table.at_account in
      let index = same.same_index ∙ f.table.at_index in
      record {
        same_operation = sym f.table.made_key.0;
        same_profile = same.same_profile ∙ f.table.same_place.0 ∙ sym f.table.made_key.1;
        same_role = same.same_role ∙ f.table.same_place.1 ∙ sym f.table.made_key.2;
        same_account = fits row.account f.account (account) small.0 ∙ sym f.table.made_index.0;
        same_index = fits row.index f.start (index) small.1 ∙ sym f.table.made_index.1;
        same_path = same.same_path ∙ sym f.table.made_path.0;
      }
    where
      fits : (n m : ℕ) → n ≡ m → m < u32_size → as_u32 n ≡ m
      fits n m e h = omega arith

-- A reservation is idempotent: after a new operation id was reserved, and after any history of
-- calls on the tables that the reservation left (prepares, commits, activations, retirements and
-- tombstones), the same request answers with the original operation id, profile, role, account,
-- index and path, and the retry changes no table.
pub prepare-retry :
    (env : Env) (q : Request) (invalid_child again_invalid : ℕ → ℕ → Bool) (now later : ℕ)
    (r r' : Registry) (made : Reservation)
    → load_allocation q.wallet_id q.operation_id r ≡ none
    → prepare_allocation_at env q invalid_child now r ≡ (ok made, r')
    → (calls : List Call)
    → (again : Reservation) × (prepare_allocation_at env q again_invalid later (run env calls r')
        ≡ (ok again, run env calls r'))
      × IsSameReservation made again
unfolding prepare_allocation_at retry_existing prepare_body bind lift
prepare-retry env q invalid_child again_invalid now later r r' made new e calls =
    let f = prepare-Fresh env q invalid_child now r r' made new e in
    let kept =
      run-keeps (StillHas q.wallet_id q.operation_id f.table.new) env
        (Change-StillHas q.wallet_id q.operation_id f.table.new env) calls r'
        (Fresh-StillHas env q invalid_child now r r' made f new) in
    let row = kept.0 in
    (
      existing_reservation q row,
      rw f.checked
          (rw kept.1 (rw (row_matches env q invalid_child now r r' made f row kept.2) refl)),
      retry_row env q invalid_child now r r' made f row kept.2,
    )
