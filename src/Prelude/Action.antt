-- ===== src/Prelude/Action.antt =====
-- Calls on a state that stays changed when a later step fails: each is a commit of its own.
use mathlib.Core.Path.{◌≡◌, refl}
use bloom_signer.Prelude.Result.{Result, ok, err, panic}

abbrev pub Action : Type 0 → Type 0 → Type 0
Action S A = S → Result A × S

unfoldable pub proceed : {S A B : Type 0} → Result A × S → (A → Action S B) → Result B × S
proceed (ok a, s) f = f a s
proceed (err e, s) f = (err e, s)
proceed (panic, s) f = (panic, s)

infixl 5 ◌>>=◌ ◌>>◌
abbrev pub ◌>>=◌ : {S A B : Type 0} → Action S A → (A → Action S B) → Action S B
(m >>= f) s = proceed (m s) f

abbrev pub ◌>>◌ : {S B : Type 0} → Action S (Unit {0}) → Action S B → Action S B
m >> k = m >>= λ _. k

abbrev pub pure : {S A : Type 0} → A → Action S A
pure a s = (ok a, s)

abbrev pub read : {S A : Type 0} → (S → Result A) → Action S A
read f s = (f s, s)

-- What holds at the end of a run: `Q` of a value and its state, `E` of the state of a failure.
abbrev pub EndOf {ℓ} : {S A : Type 0} → (A → S → Type ℓ) → (S → Type ℓ) → Result A × S → Type ℓ
EndOf Q E (ok a, s) = Q a s
EndOf Q E (err e, s) = E s
EndOf Q E (panic, s) = E s

pub record Ends {ℓ} {S A : Type 0} (Q : A → S → Type ℓ) (E : S → Type ℓ) (r : Result A × S)
    : Type ℓ where
  pub holds : EndOf Q E r

pub proceed-Ends {ℓ} :
    {S A B : Type 0} {Q : A → S → Type ℓ} {R : B → S → Type ℓ} {E : S → Type ℓ} {f : A → Action S B}
    (r : Result A × S)
    → Ends Q E r
    → ((a : A) (s : S) → Q a s → Ends R E (f a s))
    → Ends R E (proceed r f)
unfolding proceed
proceed-Ends (ok a, s) h k = k a s h.holds
proceed-Ends (err e, s) h k = record { holds = h.holds }
proceed-Ends (panic, s) h k = record { holds = h.holds }

-- A step whose state is the same however it ends.
pub read-Ends {ℓ} :
    {S A : Type 0} {Q : A → S → Type ℓ} {E : S → Type ℓ} (r : Result A) (s : S)
    → ((a : A) → r ≡ ok a → Q a s)
    → E s
    → Ends Q E (r, s)
read-Ends (ok a) s q e = record { holds = q a refl }
read-Ends (err code) s q e = record { holds = e }
read-Ends panic s q e = record { holds = e }

-- What holds of the state however the run ends.
pub Ends-always {ℓ} :
    {S A : Type 0} {E : S → Type ℓ} (r : Result A × S) → Ends (λ _ s. E s) E r → E r.1
Ends-always (ok a, s) h = h.holds
Ends-always (err e, s) h = h.holds
Ends-always (panic, s) h = h.holds
