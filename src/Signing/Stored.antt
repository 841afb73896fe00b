-- ===== src/Signing/Stored.antt =====
-- A stored result of an operation (`stored_operation_result` of crates/bloom-signer/src/engine.rs): its row,
-- and that it stays.
use bloom_signer.Prelude.{
  ℕ, ◌≤◌, true, List, [], ◌∷◌, Option, none, some, find?, count_where, ◌≡◌, refl, inl, inr, arith,
  Bool-cases,
}
use bloom_signer.Prelude.Split.{find?-count, find?-test}
use bloom_signer.Signing.State.{Operation, state_eq, committed, Tables, Engine, Deps, is_operation}
use bloom_signer.Signing.Effects.{is_in_state, result_of, stored_operation_result}
use bloom_signer.Signing.Counted.{IsConsistent}
use bloom_signer.Signing.Calls.{Call, run}
use bloom_signer.Signing.Durable.{run-finished, stored_of}

-- The row that a stored result is read from is the only one of the operation.
found-committed :
    (id : ℕ) (rows : List Operation) (row : Operation)
    → find? (is_in_state id committed) rows ≡ some row
    → count_where (is_operation id) rows ≤ 1
    → find? (is_operation id) rows ≡ some row
unfolding find? is_in_state count_where
found-committed id [] row h c = cc
found-committed id (x ∷ rows) row h c = elim (Bool-cases (is_operation id x)) [
  | inl u ↦ elim (Bool-cases (state_eq x.state committed)) [
    | inl v ↦ rw u (rw v at (rw u at h))
    | inr v ↦
        let rest = rw v at (rw u at h) in
        let own = find?-test (is_in_state id committed) rows row rest in
        let k =
          find?-count (is_in_state id committed) (is_operation id) rows row rest (ground arith) in
        absurd (let n = rw u at c in omega arith)
  ]
  | inr u ↦ rw u (found-committed id rows row (rw u at h) (let n = rw u at c in omega arith))
]

stored-some :
    (id : ℕ) (bytes : List ℕ) (t : Tables)
    → stored_operation_result id t ≡ some bytes
    → (row : Operation) × (find? (is_in_state id committed) t.operations ≡ some row)
      × (row.normalized_result ≡ some bytes)
unfolding stored_operation_result result_of
stored-some id bytes t h = from (find? (is_in_state id committed) t.operations) refl h
  where
    from :
        (found : Option Operation)
        → find? (is_in_state id committed) t.operations ≡ found
        → result_of found ≡ some bytes
        → (row : Operation) × (find? (is_in_state id committed) t.operations ≡ some row)
          × (row.normalized_result ≡ some bytes)
    from none e k = ground arith
    from (some row) e k = (row, e, ground arith)

state_of : (id : ℕ) (row : Operation) → is_in_state id committed row ≡ true → row.state ≡ committed
unfolding is_in_state state_eq
state_of id row h = ground arith

-- A stored result belongs to the row of the operation, which is finished.
pub stored-row :
    (id : ℕ) (bytes : List ℕ) (t : Tables)
    → IsConsistent t
    → stored_operation_result id t ≡ some bytes
    → (row : Operation) × (find? (is_operation id) t.operations ≡ some row)
      × (row.state ≡ committed)
      × (row.normalized_result ≡ some bytes)
stored-row id bytes t c h =
    let w = stored-some id bytes t h in
    let own = find?-test (is_in_state id committed) t.operations w.0 w.1 in
    (
      w.0,
      found-committed id t.operations w.0 w.1 (c.unique_operations id),
      state_of id w.0 own,
      w.2,
    )

-- It stays stored.
pub stored-durable :
    (deps : Deps) (id : ℕ) (bytes : List ℕ) (s : Engine)
    → IsConsistent s.tables
    → stored_operation_result id s.tables ≡ some bytes
    → (calls : List Call) → stored_operation_result id (run deps calls s).tables ≡ some bytes
unfolding state_eq
stored-durable deps id bytes s c h calls =
    let w = stored-row id bytes s.tables c h in
    stored_of id bytes w.0 (run deps calls s).tables
      (run-finished deps calls s id w.0 c w.1 (rw w.2 refl)) (rw w.2 refl) w.3
