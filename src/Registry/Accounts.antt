-- ===== src/Registry/Accounts.antt =====
-- `next_account_number` of crates/bloom-signer/src/derivation_registry.rs: an account that no path of
-- the wallet has used.
use bloom_signer.Prelude.{
  ℕ, ◌+◌, ◌^◌, ◌≤◌, Bool, true, false, ◌&&◌, List, [], ◌∷◌, Option, none, some, ◌==◌, ltb, map, max,
  max_of, rows_where, if◌then◌else◌, ◌≡◌, refl, sym, arith, All, Bool-cases, inl, inr,
}
use bloom_signer.Prelude.Split.{All-mono}
use bloom_signer.Prelude.Result.{Result, ok, err, limit_exceeded_operations}
use bloom_signer.Registry.Path.{evm, solana, profile_eq}
use bloom_signer.Registry.Types.{Namespace, Tombstone, Registry}
use bloom_signer.Registry.Prepare.{in_profile, highest_account}

-- The `WHERE` clauses: the EVM family of the wallet under account 0.
unfoldable pub evm_namespace : ℕ → Namespace → Bool
evm_namespace wallet row = row.wallet_id == wallet && profile_eq row.profile evm && row.account == 0

unfoldable pub evm_tombstone : ℕ → Tombstone → Bool
evm_tombstone wallet row = row.wallet_id == wallet && profile_eq row.profile evm && row.account == 0

abbrev pub or_none : Option ℕ → ℕ
or_none none = 0
or_none (some n) = n

-- `highest + 1`, or 0 without a row.
abbrev pub after_highest : Option ℕ → ℕ
after_highest none = 0
after_highest (some n) = n + 1

-- The three maxima of the queries.
unfoldable pub account_candidate : Registry → ℕ → ℕ
account_candidate r wallet =
    max
      (max
        (or_none
          (max_of (map (λ row. row.next_index) (rows_where (evm_namespace wallet) r.namespaces))))
        (after_highest
          (max_of (map (λ row. row.index) (rows_where (evm_tombstone wallet) r.tombstones)))))
      (after_highest (highest_account wallet solana r))

-- `next_account_number`
unfoldable pub next_account_number : Registry → ℕ → Result ℕ
next_account_number r wallet =
    if ltb (account_candidate r wallet) (2 ^ 31)
    then ok (account_candidate r wallet)
    else err limit_exceeded_operations

top : Option ℕ → ℕ → Option ℕ
top none n = some n
top (some m) n = some (max n m)

top_bounds :
    (o : Option ℕ) (n : ℕ)
    → (n + 1 ≤ after_highest (top o n)) × (after_highest o ≤ after_highest (top o n))
unfolding top
top_bounds none n = (omega arith, omega arith)
top_bounds (some m) n = (omega arith, omega arith)

max_of-top : (n : ℕ) (ns : List ℕ) → max_of (n ∷ ns) ≡ top (max_of ns) n
unfolding max_of top
max_of-top n ns = from (max_of ns) refl
  where
    from : (o : Option ℕ) → max_of ns ≡ o → max_of (n ∷ ns) ≡ top o n
    from none e = rw e refl
    from (some m) e = rw e refl

module _ {A : Type 0} (value : A → ℕ) (test : A → Bool) (bound : ℕ) where
  -- Every row that a query reads is below the number after the maximum.
  above_rows :
      (rows : List A)
      → after_highest (max_of (map value (rows_where test rows))) ≤ bound
      → All (λ row. test row ≡ true → value row + 1 ≤ bound) rows
  unfolding rows_where
  above_rows [] h = tt
  above_rows (x ∷ rows) h = elim (Bool-cases (test x)) [
    | inl u ↦
        let step : after_highest (max_of (value x ∷ map value (rows_where test rows))) ≤ bound =
          rw u at h in
        let same = max_of-top (value x) (map value (rows_where test rows)) in
        let two = top_bounds (max_of (map value (rows_where test rows))) (value x) in
        let first = two.0 in
        let second = two.1 in
        let whole : after_highest (top (max_of (map value (rows_where test rows))) (value x))
            ≤ bound =
          rw (sym same) step in
        ((λ k. omega arith), above_rows rows (omega arith))
    | inr u ↦ ((λ k. absurd (true-false k u)), above_rows rows (rw u at h))
  ]
    where
      true-false : test x ≡ true → test x ≡ false → ⊥
      true-false a b = cc

in_range :
    (n m : ℕ)
    → (if ltb n (2 ^ 31) then ok n else err limit_exceeded_operations) ≡ ok m
    → (n ≡ m) × (m + 1 ≤ 2 ^ 31)
in_range n m h = ground arith

highest_more : (o : Option ℕ) (n : ℕ) → or_none o ≤ n → after_highest o ≤ n + 1
highest_more none n h = omega arith
highest_more (some m) n h = omega arith

-- A new account number is fresh: when `next_account_number` answers `Ok` for a wallet, the number is
-- below 2 ^ 31, no EVM counter of the wallet under account 0 is above it, every EVM tombstone under
-- account 0 has a smaller index, and every Solana allocation, whatever its state, a smaller account.
pub next_account_number_fresh :
    (r : Registry) (wallet n : ℕ)
    → next_account_number r wallet ≡ ok n
    → (n + 1 ≤ 2 ^ 31)
      × All (λ row. evm_namespace wallet row ≡ true → row.next_index ≤ n) r.namespaces
      × All (λ row. evm_tombstone wallet row ≡ true → row.index + 1 ≤ n) r.tombstones
      × All (λ row. in_profile wallet solana row ≡ true → row.account + 1 ≤ n) r.allocations
unfolding next_account_number account_candidate highest_account
next_account_number_fresh r wallet n h =
    let k = in_range (account_candidate r wallet) n h in
    let same = k.0 in
    let counters =
      max_of (map (λ row. row.next_index) (rows_where (evm_namespace wallet) r.namespaces)) in
    let dead = max_of (map (λ row. row.index) (rows_where (evm_tombstone wallet) r.tombstones)) in
    let parts =
      candidate_parts (or_none counters) (after_highest dead)
        (after_highest (highest_account wallet solana r)) n same in
    (
      k.1,
      All-mono r.namespaces (λ row m e. let x = m e in omega arith)
          (above_rows (λ row. row.next_index) (evm_namespace wallet) (n + 1) r.namespaces
            (highest_more counters n parts.0)),
      above_rows (λ row. row.index) (evm_tombstone wallet) n r.tombstones parts.1,
      above_rows (λ row. row.account) (in_profile wallet solana) n r.allocations parts.2,
    )
  where
    candidate_parts : (a b c n : ℕ) → max (max a b) c ≡ n → (a ≤ n) × (b ≤ n) × (c ≤ n)
    candidate_parts a b c n e = (omega arith, omega arith, omega arith)
