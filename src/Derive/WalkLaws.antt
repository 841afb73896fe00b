-- ===== src/Derive/WalkLaws.antt =====
-- What the walk of crates/bloom-signer-derive/src/allocation.rs finds.
use bloom_signer.Prelude.{
  ℕ, zero, suc, ◌+◌, ◌-◌, ◌≤◌, ◌<◌, ◌≡◌, sym, ◌∙◌, ap, Bool, true, false, List, [], ◌∷◌, ◌++◌, ◌≢◌,
  inl, inr, Bool-cases, subst, ltb, ℕ_discrete, arith,
}
use mathlib.Core.List.{append-nil, append_assoc}
use bloom_signer.Derive.Walk.{
  Walk, found, panicked, out_of_fuel, u32_size, walk_from, next_valid_index,
}

-- The indices `start`, `start + 1`, … , `n` of them.
abbrev pub range_from : ℕ → ℕ → List ℕ
range_from start zero = []
range_from start (suc n) = start ∷ range_from (start + 1) n

-- The walk found the least valid index at or after the start and skipped exactly those before it,
-- or every index that is left is invalid and the code panicked.
abbrev pub Walked : (ℕ → Bool) → ℕ → List ℕ → Walk → Type 0
Walked invalid start before (found index tombstones) =
    (start ≤ index)
    × (index < u32_size)
    × (invalid index ≡ false)
    × (tombstones ≡ before ++ range_from start (index - start))
    × ((i : ℕ) → start ≤ i → i < index → invalid i ≡ true)
Walked invalid start before panicked = (i : ℕ) → start ≤ i → i < u32_size → invalid i ≡ true
Walked invalid start before out_of_fuel = ⊥

-- The first index is invalid and so are those after it up to `n`.
from_first :
    (invalid : ℕ → Bool) (start n i : ℕ)
    → invalid start ≡ true
    → (start + 1 ≤ i → i < n → invalid i ≡ true)
    → start ≤ i
    → i < n
    → invalid i ≡ true
from_first invalid start n i bad all h k = elim (ℕ_discrete start i) [
  | yes e ↦ subst (λ j. invalid j ≡ true) e bad
  | no ne ↦ all (omega arith) k
]

module _ (invalid : ℕ → Bool) where
  -- One more invalid index in front.
  Walked-step :
      (start : ℕ) (before : List ℕ) (w : Walk)
      → invalid start ≡ true
      → Walked invalid (start + 1) (before ++ start ∷ []) w
      → Walked invalid start before w
  Walked-step start before (found index tombstones) bad (le, below, good, skipped, all) = (
    omega arith,
    below,
    good,
    skipped ∙ (append_assoc before (start ∷ []) _ ∙ ap (λ r. before ++ r) (sym unroll)),
    λ i. from_first invalid start index i bad (all i),
  )
    where
      unroll :
          range_from start (index - start) ≡ start ∷ range_from (start + 1) (index - (start + 1))
      unroll =
          let e : index - start ≡ suc (index - (start + 1)) = omega arith in ap (range_from start) e
  Walked-step start before panicked bad all = λ i. from_first invalid start u32_size i bad (all i)
  Walked-step start before out_of_fuel bad le = elim le [ ]

  walk_from-Walked :
      (fuel start : ℕ) (before : List ℕ)
      → start < u32_size
      → u32_size ≤ start + fuel
      → Walked invalid start before (walk_from fuel invalid start before)
  unfolding walk_from
  walk_from-Walked zero start before lt enough = absurd (omega arith)
  walk_from-Walked (suc fuel) start before lt enough = elim (Bool-cases (invalid start)) [
    | inl bad ↦ elim (Bool-cases (ltb (start + 1) u32_size)) [
      | inl more ↦
          rw (bad, more)
            (Walked-step start before _ bad (
              walk_from-Walked fuel (start + 1) (before ++ start ∷ []) (ground arith)
                (omega arith)))
      | inr last ↦ rw (bad, last) (λ i h k. ends i bad last h k)
    ]
    | inr good ↦ rw good (omega arith, lt, good, alone, λ i h k. absurd (omega arith))
  ]
    where
      ends :
          (i : ℕ)
          → invalid start ≡ true
          → ltb (start + 1) u32_size ≡ false
          → start ≤ i
          → i < u32_size
          → invalid i ≡ true
      ends i bad last h k = let e : start ≡ i = ground arith in subst (λ j. invalid j ≡ true) e bad

      alone : before ≡ before ++ range_from start (start - start)
      alone =
          let e : start - start ≡ 0 = omega arith in
          sym (ap (λ n. before ++ range_from start n) e ∙ append-nil before)

-- From a `u32` start the loop ends without running out of fuel: it returns the least valid index at
-- or after the start with every index before it, in order, as a tombstone, or it panics when every
-- index from the start up to the largest `u32` is invalid.
pub next_valid_index-Walked :
    (start : ℕ) (invalid : ℕ → Bool)
    → start < u32_size
    → (next_valid_index start invalid ≢ out_of_fuel)
      × Walked invalid start [] (next_valid_index start invalid)
unfolding next_valid_index
next_valid_index-Walked start invalid lt = (
  λ e. absurd (
      omega (
        arith,
        subst (Walked invalid start []) e
            (walk_from-Walked invalid (u32_size - start) start [] lt (omega arith)),
      )),
  walk_from-Walked invalid (u32_size - start) start [] lt (omega arith),
)
