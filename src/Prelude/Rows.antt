-- ===== src/Prelude/Rows.antt =====
-- Laws of the table operations of Prelude/Lists.antt.
use mathlib.Core.Path.{◌≡◌, refl, subst}
use mathlib.Core.Logic.{inl, inr}
use mathlib.Core.Bool.{Bool, true, false}
use mathlib.Core.Option.{none, some}
use mathlib.Core.List.{List, [], ◌∷◌, ◌++◌}
use bloom_signer.Prelude.Tests.{if◌then◌else◌, Bool-cases}
use bloom_signer.Prelude.Lists.{any, find?, update_where}

module _ {ℓ} {A : Type ℓ} (test : A → Bool) where
  pub find?-append_some :
      (rows : List A) (new a : A)
      → find? test rows ≡ some a
      → find? test (rows ++ new ∷ []) ≡ some a
  unfolding find?
  find?-append_some [] new a h = cc
  find?-append_some (row ∷ rows) new a h = elim (Bool-cases (test row)) [
    | inl hit ↦ rw hit (rw hit at h)
    | inr miss ↦ rw miss (find?-append_some rows new a (rw miss at h))
  ]

  pub find?-append_none :
      (rows : List A) (new : A)
      → find? test rows ≡ none
      → test new ≡ true
      → find? test (rows ++ new ∷ []) ≡ some new
  unfolding find?
  find?-append_none [] new h k = rw k
  find?-append_none (row ∷ rows) new h k = elim (Bool-cases (test row)) [
    | inl hit ↦ absurd (some≢none (rw hit at h))
    | inr miss ↦ rw miss (find?-append_none rows new (rw miss at h) k)
  ]
    where
      some≢none : some row ≡ none → ⊥
      some≢none e = cc

  pub find?-none : (rows : List A) → any test rows ≡ false → find? test rows ≡ none
  unfolding find? any
  find?-none [] h = refl
  find?-none (row ∷ rows) h = elim (Bool-cases (test row)) [
    | inl u ↦ absurd (true-false (rw u at h))
    | inr u ↦ rw u (find?-none rows (rw u at h))
  ]
    where
      true-false : true ≡ false → ⊥
      true-false e = cc

  -- A row that is found passes the test.
  pub find?-test : (rows : List A) (a : A) → find? test rows ≡ some a → test a ≡ true
  unfolding find?
  find?-test [] a h = cc
  find?-test (row ∷ rows) a h = elim (Bool-cases (test row)) [
    | inl hit ↦ subst_test (rw hit at h) hit
    | inr miss ↦ find?-test rows a (rw miss at h)
  ]
    where
      subst_test : some row ≡ some a → test row ≡ true → test a ≡ true
      subst_test e h' = cc

  find?-update_head :
      (hit : A → Bool) (change : A → A) (rows : List A) (row : A)
      → test (change row) ≡ test row
      → test row ≡ true
      → find? test (update_where hit change (row ∷ rows))
        ≡ some (if hit row then change row else row)
  unfolding find? update_where
  find?-update_head hit change rows row keep here = elim (Bool-cases (hit row)) [
    | inl u ↦ rw u (rw keep (rw here))
    | inr u ↦ rw u (rw here)
  ]

  find?-head :
      (rows : List A) (row a : A) → test row ≡ true → find? test (row ∷ rows) ≡ some a → row ≡ a
  unfolding find?
  find?-head rows row a here h = cc (rw here at h)

  -- An update that does not touch what the test reads.
  pub find?-update_where :
      (hit : A → Bool) (change : A → A) (rows : List A) (a : A)
      → ((row : A) → test (change row) ≡ test row)
      → find? test rows ≡ some a
      → find? test (update_where hit change rows) ≡ some (if hit a then change a else a)
  unfolding find? update_where
  find?-update_where hit change [] a keep h = cc
  find?-update_where hit change (row ∷ rows) a keep h = elim (Bool-cases (test row)) [
    | inl here ↦
        subst
          (λ x.
            find? test (update_where hit change (row ∷ rows))
            ≡ some (if hit x then change x else x))
          (find?-head rows row a here h) (find?-update_head hit change rows row (keep row) here)
    | inr miss ↦ elim (Bool-cases (hit row)) [
      | inl u ↦
          rw u (rw (keep row) (rw miss (find?-update_where hit change rows a keep (rw miss at h))))
      | inr u ↦ rw u (rw miss (find?-update_where hit change rows a keep (rw miss at h)))
    ]
  ]
