-- ===== src/Derive/Walk.antt =====
-- crates/bloom-signer-derive/src/allocation.rs: the walk over child indices. A `u32` is a number
-- below `2 ^ 32`; `checked_add` fails at the top, where the code panics by `expect`.
use bloom_signer.Prelude.{
  ℕ, zero, suc, ◌+◌, ◌-◌, ◌^◌, Bool, List, [], ◌∷◌, ◌++◌, ltb, if◌then◌else◌,
}

abbrev pub u32_size : ℕ
u32_size = 2 ^ 32

-- What a call of `next_valid_index` ends in: the index with the tombstones in visit order, the
-- panic of `expect`, or (in the model alone) fuel that has run out.
pub data Walk : Type 0 where
  found : ℕ → List ℕ → Walk
  panicked : Walk
  out_of_fuel : Walk

-- The loop, on fuel.
unfoldable pub walk_from : ℕ → (ℕ → Bool) → ℕ → List ℕ → Walk
walk_from zero invalid candidate tombstones = out_of_fuel
walk_from (suc fuel) invalid candidate tombstones =
    let tombstones' = tombstones ++ candidate ∷ [] in
    let rest = walk_from fuel invalid (candidate + 1) tombstones' in
    let advanced = if ltb (candidate + 1) u32_size then rest else panicked in
    if invalid candidate then advanced else found candidate tombstones

-- One round for each index that is left reaches the end.
unfoldable pub next_valid_index : ℕ → (ℕ → Bool) → Walk
unfolding walk_from
next_valid_index start invalid = walk_from (u32_size - start) invalid start []
