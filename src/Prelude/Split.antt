-- ===== src/Prelude/Split.antt =====
-- A table in which exactly one row passes a test, split around that row.
use bloom_signer.Prelude.Tests.{if◌then◌else◌, Bool-cases}
use bloom_signer.Prelude.Lists.{All, find?, count_where, update_where}
use Prim.Native.Nat.{suc, ◌+◌, ◌≤◌}
use mathlib.Core.Path.{◌≡◌, refl, ap, sym, subst, ◌∙◌}
use mathlib.Core.Logic.{inl, inr}
use mathlib.Core.Bool.{Bool, true, false, ◌&&◌}
use mathlib.Core.Option.{none, some}
use mathlib.Core.List.{List, [], ◌∷◌, ◌++◌}
use native.Mathlib.Omega.{arith}

module _ {ℓ} {A : Type ℓ} where
  pub record Split (test : A → Bool) (rows : List A) (row : A) : Type ℓ where
    pub before : List A
    pub after : List A
    pub whole : rows ≡ before ++ row ∷ after
    pub hit : test row ≡ true
    pub missed : (count_where test before ≡ 0) × (count_where test after ≡ 0)

  count_where-hit :
      (test : A → Bool) (x : A) (rows : List A)
      → test x ≡ true
      → count_where test (x ∷ rows) ≡ suc (count_where test rows)
  unfolding count_where
  count_where-hit test x rows u = ground arith

  pub count_where-miss :
      (test : A → Bool) (x : A) (rows : List A)
      → test x ≡ false
      → count_where test (x ∷ rows) ≡ count_where test rows
  unfolding count_where
  count_where-miss test x rows u = ground arith

  find?-hit :
      (test : A → Bool) (x a : A) (rows : List A)
      → test x ≡ true
      → find? test (x ∷ rows) ≡ some a
      → x ≡ a
  unfolding find?
  find?-hit test x a rows u h = cc (rw u at h)

  find?-miss :
      (test : A → Bool) (x : A) (rows : List A)
      → test x ≡ false
      → find? test (x ∷ rows) ≡ find? test rows
  unfolding find?
  find?-miss test x rows u = rw u refl

  pub count_where-++ :
      (test : A → Bool) (xs ys : List A)
      → count_where test (xs ++ ys) ≡ count_where test xs + count_where test ys
  unfolding count_where
  count_where-++ test [] ys = omega arith
  count_where-++ test (x ∷ xs) ys = let h = count_where-++ test xs ys in omega arith

  -- No row passes: an update changes nothing.
  pub update_where-none :
      (test : A → Bool) (change : A → A) (rows : List A)
      → count_where test rows ≡ 0
      → update_where test change rows ≡ rows
  unfolding update_where
  update_where-none test change [] h = refl
  update_where-none test change (x ∷ rows) h = elim (Bool-cases (test x)) [
    | inl u ↦ let c = count_where-hit test x rows u in absurd (omega arith)
    | inr u ↦ rw u (
        ap (λ ys. x ∷ ys)
          (update_where-none test change rows (sym (count_where-miss test x rows u) ∙ h)))
  ]

  pub find?-none-count :
      (test : A → Bool) (rows : List A) → find? test rows ≡ none → count_where test rows ≡ 0
  unfolding count_where find?
  find?-none-count test [] h = refl
  find?-none-count test (x ∷ rows) h = elim (Bool-cases (test x)) [
    | inl u ↦ cc (rw u at h)
    | inr u ↦
        count_where-miss test x rows u
        ∙ find?-none-count test rows (sym (find?-miss test x rows u) ∙ h)
  ]

  pub update_where-++ :
      (test : A → Bool) (change : A → A) (xs ys : List A)
      → update_where test change (xs ++ ys)
        ≡ update_where test change xs ++ update_where test change ys
  unfolding update_where
  update_where-++ test change [] ys = refl
  update_where-++ test change (x ∷ xs) ys =
      ap (λ zs. (if test x then change x else x) ∷ zs) (update_where-++ test change xs ys)

  update_where-hit :
      (test : A → Bool) (change : A → A) (x : A) (rows : List A)
      → test x ≡ true
      → update_where test change (x ∷ rows) ≡ change x ∷ update_where test change rows
  unfolding update_where
  update_where-hit test change x rows u = rw u refl

  -- The update changes the one row.
  pub Split-update :
      {test : A → Bool} {rows : List A} {row : A} (change : A → A) (s : Split test rows row)
      → update_where test change rows ≡ s.before ++ change row ∷ s.after
  Split-update {test} {rows} {row} change s =
      ap (update_where test change) s.whole
      ∙ update_where-++ test change s.before (row ∷ s.after)
      ∙ ap (λ ys. ys ++ update_where test change (row ∷ s.after))
          (update_where-none test change s.before s.missed.0)
      ∙ ap (λ ys. s.before ++ ys)
          (update_where-hit test change row s.after s.hit
            ∙ ap (λ ys. change row ∷ ys) (update_where-none test change s.after s.missed.1))

  -- A row in front that the test does not pass.
  Split-later :
      {test : A → Bool} {rows : List A} {row : A} (x : A)
      → test x ≡ false
      → Split test rows row
      → Split test (x ∷ rows) row
  Split-later {test} {rows} {row} x u s = record {
    before = x ∷ s.before;
    after = s.after;
    whole = ap (λ ys. x ∷ ys) s.whole;
    hit = s.hit;
    missed = (count_where-miss test x s.before u ∙ s.missed.0, s.missed.1);
  }

  Split-here :
      (test : A → Bool) (x : A) (rows : List A)
      → test x ≡ true
      → count_where test (x ∷ rows) ≤ 1
      → Split test (x ∷ rows) x
  unfolding count_where
  Split-here test x rows u c = record {
    before = [];
    after = rows;
    whole = refl;
    hit = u;
    missed = (refl, (let e = count_where-hit test x rows u in omega arith));
  }

  -- A row that is found in a table in which at most one row passes.
  pub found-Split :
      (test : A → Bool) (rows : List A) (row : A)
      → find? test rows ≡ some row
      → count_where test rows ≤ 1
      → Split test rows row
  unfolding find?
  found-Split test [] row f c = cc
  found-Split test (x ∷ rows) row f c = elim (Bool-cases (test x)) [
    | inl u ↦
        subst (Split test (x ∷ rows)) (find?-hit test x row rows u f) (Split-here test x rows u c)
    | inr u ↦
        let e = count_where-miss test x rows u in
        Split-later x u
          (found-Split test rows row (sym (find?-miss test x rows u) ∙ f) (omega arith))
  ]

  -- The one row that passes.
  pub one-Split :
      (test : A → Bool) (rows : List A)
      → count_where test rows ≡ 1
      → (row : A) × Split test rows row
  unfolding count_where
  one-Split test [] c = absurd (omega arith)
  one-Split test (x ∷ rows) c = elim (Bool-cases (test x)) [
    | inl u ↦ (x, Split-here test x rows u (omega arith))
    | inr u ↦
        let rest = one-Split test rows (sym (count_where-miss test x rows u) ∙ c) in
        (rest.0, Split-later x u rest.1)
  ]

  pub All-++ {κ} : (P : A → Type κ) (xs ys : List A) → All P xs → All P ys → All P (xs ++ ys)
  All-++ P [] ys h k = k
  All-++ P (x ∷ xs) ys h k = (h.0, All-++ P xs ys h.1 k)

  pub All-left {κ} : (P : A → Type κ) (xs ys : List A) → All P (xs ++ ys) → All P xs
  All-left P [] ys h = tt
  All-left P (x ∷ xs) ys h = (h.0, All-left P xs ys h.1)

  pub All-right {κ} : (P : A → Type κ) (xs ys : List A) → All P (xs ++ ys) → All P ys
  All-right P [] ys h = h
  All-right P (x ∷ xs) ys h = All-right P xs ys h.1

  pub All-mono {κ μ} :
      {P : A → Type κ} {Q : A → Type μ} (xs : List A) → ((x : A) → P x → Q x) → All P xs → All Q xs
  All-mono [] k h = tt
  All-mono (x ∷ xs) k h = (k x h.0, All-mono xs k h.1)

  -- An update keeps a property that the change keeps.
  pub update_where-All {κ} :
      {P : A → Type κ} (test : A → Bool) (change : A → A) (rows : List A)
      → ((x : A) → P x → P (change x))
      → All P rows
      → All P (update_where test change rows)
  unfolding update_where
  update_where-All test change [] k h = tt
  update_where-All test change (x ∷ rows) k h = elim (Bool-cases (test x)) [
    | inl u ↦ rw u (k x h.0, update_where-All test change rows k h.1)
    | inr u ↦ rw u (h.0, update_where-All test change rows k h.1)
  ]

  -- A narrower test finds the same row, if the row passes it.
  pub find?-narrow :
      (test other : A → Bool) (rows : List A) (row : A)
      → find? test rows ≡ some row
      → other row ≡ true
      → find? (λ x. test x && other x) rows ≡ some row
  unfolding find?
  find?-narrow test other [] row f h = cc
  find?-narrow test other (x ∷ rows) row f h = elim (Bool-cases (test x)) [
    | inl u ↦
        let e = find?-hit test x row rows u f in
        let k : other x ≡ true = rw e h in rw u (rw k (ap some e))
    | inr u ↦ rw u (find?-narrow test other rows row (sym (find?-miss test x rows u) ∙ f) h)
  ]

  -- A stronger test counts no more rows.
  pub count_where-imp :
      (test other : A → Bool) (rows : List A)
      → ((x : A) → other x ≡ true → test x ≡ true)
      → count_where other rows ≤ count_where test rows
  unfolding count_where
  count_where-imp test other [] k = omega arith
  count_where-imp test other (x ∷ rows) k =
      let h = count_where-imp test other rows k in
      elim (Bool-cases (other x)) [
        | inl u ↦ rw u (rw (k x u) (omega arith))
        | inr u ↦ rw u (omega arith)
      ]

  pub find?-test :
      (test : A → Bool) (rows : List A) (row : A) → find? test rows ≡ some row → test row ≡ true
  unfolding find?
  find?-test test [] row h = cc
  find?-test test (x ∷ rows) row h = elim (Bool-cases (test x)) [
    | inl u ↦ subst (λ r. test r ≡ true) (find?-hit test x row rows u h) u
    | inr u ↦ find?-test test rows row (sym (find?-miss test x rows u) ∙ h)
  ]

  -- A row that is found has what every row has.
  pub find?-All {κ} :
      (P : A → Type κ) (test : A → Bool) (rows : List A) (row : A)
      → find? test rows ≡ some row
      → All P rows
      → P row
  unfolding find?
  find?-All P test [] row f h = cc
  find?-All P test (x ∷ rows) row f h = elim (Bool-cases (test x)) [
    | inl u ↦ subst P (find?-hit test x row rows u f) h.0
    | inr u ↦ find?-All P test rows row (sym (find?-miss test x rows u) ∙ f) h.1
  ]

  All-missed {κ μ} :
      {P : A → Type κ} {Q : A → Type μ} (test : A → Bool) (xs : List A)
      → count_where test xs ≡ 0
      → ((x : A) → test x ≡ false → P x → Q x)
      → All P xs
      → All Q xs
  All-missed test [] c k h = tt
  All-missed test (x ∷ xs) c k h = elim (Bool-cases (test x)) [
    | inl u ↦ let e = count_where-hit test x xs u in absurd (omega arith)
    | inr u ↦ (k x u h.0, All-missed test xs (sym (count_where-miss test x xs u) ∙ c) k h.1)
  ]

  -- A property of every row after an update of one row.
  pub Split-All {κ μ} :
      {P : A → Type κ} {Q : A → Type μ} {test : A → Bool} {rows : List A} {row : A} (change : A → A)
      (s : Split test rows row)
      → ((x : A) → test x ≡ false → P x → Q x)
      → (P row → Q (change row))
      → All P rows
      → All Q (update_where test change rows)
  Split-All {P = P} {Q} {test} {rows} {row} change s miss changed h =
      let parts = subst (All P) s.whole h in
      let right = All-right P s.before (row ∷ s.after) parts in
      subst (All Q) (sym (Split-update change s)) (
        All-++ Q s.before (change row ∷ s.after)
          (All-missed test s.before s.missed.0 miss (All-left P s.before (row ∷ s.after) parts))
          (changed right.0, All-missed test s.after s.missed.1 miss right.1))

  -- A row that the test does not pass, in the place of another.
  pub count_where-swap :
      (test : A → Bool) (before after : List A) (row new : A)
      → test new ≡ false
      → count_where test (before ++ row ∷ after) ≡ 0
      → count_where test (before ++ new ∷ after) ≡ 0
  unfolding count_where
  count_where-swap test before after row new miss h =
      let a = count_where-++ test before (row ∷ after) in
      let b = count_where-++ test before (new ∷ after) in
      let c = count_where-miss test new after miss in omega arith

  -- A row at the end that the test does not pass.
  pub count_where-last :
      (test : A → Bool) (rows : List A) (new : A)
      → test new ≡ false
      → count_where test (rows ++ new ∷ []) ≡ count_where test rows
  unfolding count_where
  count_where-last test rows new miss =
      let b = count_where-++ test rows (new ∷ []) in
      let c = count_where-miss test new [] miss in omega arith

  -- After the update no row passes, if the changed row does not.
  pub Split-gone :
      {test : A → Bool} {rows : List A} {row : A} (change : A → A) (s : Split test rows row)
      → test (change row) ≡ false
      → count_where test (update_where test change rows) ≡ 0
  unfolding count_where
  Split-gone {test} {rows} {row} change s miss =
      let a = count_where-++ test s.before (change row ∷ s.after) in
      let c = count_where-miss test (change row) s.after miss in
      let m = s.missed in ap (count_where test) (Split-update change s) ∙ (omega arith)

  -- After the update the changed row is there.
  pub Split-there :
      {test : A → Bool} {rows : List A} {row : A} (other : A → Bool) (change : A → A)
      (s : Split test rows row)
      → other (change row) ≡ true
      → 1 ≤ count_where other (update_where test change rows)
  unfolding count_where
  Split-there {test} {rows} {row} other change s hit =
      let a = count_where-++ other s.before (change row ∷ s.after) in
      let c = count_where-hit other (change row) s.after hit in
      rw (Split-update change s) (omega arith)

  -- A row that is found counts for every test that it passes.
  pub find?-count :
      (test other : A → Bool) (rows : List A) (row : A)
      → find? test rows ≡ some row
      → other row ≡ true
      → 1 ≤ count_where other rows
  unfolding count_where find?
  find?-count test other [] row f h = cc
  find?-count test other (x ∷ rows) row f h = elim (Bool-cases (test x)) [
    | inl u ↦
        let e = find?-hit test x row rows u f in
        let c = count_where-hit other x rows (rw e h) in omega arith
    | inr u ↦
        let k = find?-count test other rows row (sym (find?-miss test x rows u) ∙ f) h in
        omega arith
  ]
