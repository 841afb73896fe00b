-- ===== src/Prelude/Tx.antt =====
-- A database transaction over a state of tables. An error inside it leaves the tables as they were
-- when it began: SQLite rolls an uncommitted transaction back; so does a panic, which drops it.
use mathlib.Core.Bool.{Bool, true, false}
use mathlib.Core.Path.{◌≡◌, refl, subst}
use mathlib.Core.Option.{Option, none, some}
use native.Mathlib.Omega.{arith}
use bloom_signer.Prelude.Result.{Result, ok, err, panic, ProtocolErrorCode}

abbrev pub Tx : Type 0 → Type 0 → Type 0
Tx S A = S → Result (A × S)

module _ {S : Type 0} where
  abbrev pub pure : {A : Type 0} → A → Tx S A
  pure a s = ok (a, s)

  abbrev pub fail : {A : Type 0} → ProtocolErrorCode → Tx S A
  fail e s = err e

  abbrev pub gets : {A : Type 0} → (S → A) → Tx S A
  gets f s = ok (f s, s)

  abbrev pub modify : (S → S) → Tx S (Unit {0})
  modify f s = ok (tt, f s)

  -- A pure check of the source, run inside the transaction.
  unfoldable pub lift : {A : Type 0} → Result A → Tx S A
  lift (ok a) s = ok (a, s)
  lift (err e) s = err e
  lift panic s = panic

  unfoldable pub reject_if : Bool → ProtocolErrorCode → Tx S (Unit {0})
  reject_if true e s = err e
  reject_if false e s = ok (tt, s)

  unfoldable pub ok_or : {A : Type 0} → Option A → ProtocolErrorCode → Tx S A
  ok_or none e s = err e
  ok_or (some a) e s = ok (a, s)

unfoldable pub bind : {S A B : Type 0} → Result (A × S) → (A → Tx S B) → Result (B × S)
bind (ok (a, s)) f = f a s
bind (err e) f = err e
bind panic f = panic

infixl 5 ◌>>=◌ ◌>>◌
abbrev pub ◌>>=◌ : {S A B : Type 0} → Tx S A → (A → Tx S B) → Tx S B
◌>>=◌ m f s = bind (m s) f

abbrev pub ◌>>◌ : {S A B : Type 0} → Tx S A → Tx S B → Tx S B
m >> k = m >>= λ _. k

-- The value and the tables after a transaction that commits and then returns `Ok` or `Err`.
abbrev pub committed : {S A : Type 0} → S → Result (Result A × S) → Result A × S
committed s (ok (r, s')) = (r, s')
committed s (err e) = (err e, s)
committed s panic = (panic, s)

abbrev pub transact : {S A : Type 0} → Tx S (Result A) → S → Result A × S
transact m s = committed s (m s)

-- The value and the tables after a transaction that commits exactly when it succeeds.
abbrev pub settled : {S A : Type 0} → S → Result (A × S) → Result A × S
settled s (ok (a, s')) = (ok a, s')
settled s (err e) = (err e, s)
settled s panic = (panic, s)

abbrev pub atomically : {S A : Type 0} → Tx S A → S → Result A × S
atomically m s = settled s (m s)

-- What holds of the value and the tables at the end of a transaction that succeeds.
abbrev pub HoldsOf {ℓ} : {S A : Type 0} → (A → S → Type ℓ) → Result (A × S) → Type ℓ
HoldsOf Q (ok (a, s)) = Q a s
HoldsOf Q (err e) = Unit
HoldsOf Q panic = Unit

pub record Post {ℓ} {S A : Type 0} (Q : A → S → Type ℓ) (r : Result (A × S)) : Type ℓ where
  pub holds : HoldsOf Q r

pub ended {ℓ} : {S A : Type 0} {Q : A → S → Type ℓ} {a : A} {s : S} → Q a s → Post Q (ok (a, s))
ended q = record { holds = q }

-- A sequence whose first part is known by its equation.
pub bind-Post {ℓ} :
    {S A B : Type 0} {R : B → S → Type ℓ} {r : Result (A × S)} {f : A → Tx S B}
    → ((a : A) (s : S) → r ≡ ok (a, s) → Post R (f a s))
    → Post R (bind r f)
unfolding bind
bind-Post {r = ok (a, s)} k = k a s refl
bind-Post {r = err e} k = record { holds = tt }
bind-Post {r = panic} k = record { holds = tt }

-- A sequence whose first part cannot fail.
pub ok-Post {ℓ} :
    {S A B : Type 0} {R : B → S → Type ℓ} {a : A} {s : S} (f : A → Tx S B)
    → Post R (f a s)
    → Post R (bind (ok (a, s)) f)
unfolding bind
ok-Post f k = k

-- A sequence that begins with a check.
pub reject-Post {ℓ} :
    {S B : Type 0} {R : B → S → Type ℓ} {b : Bool} {s : S} (e : ProtocolErrorCode)
    (f : Unit {0} → Tx S B)
    → (b ≡ false → Post R (f tt s))
    → Post R (bind (reject_if b e s) f)
unfolding bind reject_if
reject-Post {b = true} e f k = record { holds = tt }
reject-Post {b = false} e f k = k refl

-- A sequence that begins with a pure part of the source.
pub lift-Post {ℓ} :
    {S A B : Type 0} {R : B → S → Type ℓ} {r : Result A} {s : S} (f : A → Tx S B)
    → ((a : A) → r ≡ ok a → Post R (f a s))
    → Post R (bind (lift r s) f)
unfolding bind lift
lift-Post {r = ok a} f k = k a refl
lift-Post {r = err e} f k = record { holds = tt }
lift-Post {r = panic} f k = record { holds = tt }

-- A sequence that begins by reading a row that must be there.
pub ok_or-Post {ℓ} :
    {S A B : Type 0} {R : B → S → Type ℓ} {o : Option A} {s : S} (e : ProtocolErrorCode)
    (f : A → Tx S B)
    → ((a : A) → o ≡ some a → Post R (f a s))
    → Post R (bind (ok_or o e s) f)
unfolding bind ok_or
ok_or-Post {o = some a} e f k = k a refl
ok_or-Post {o = none} e f k = record { holds = tt }

-- The postcondition of a sequence from those of its parts.
pub >>=-Post {ℓ κ} :
    {S A B : Type 0} {Q : A → S → Type ℓ} {R : B → S → Type κ} {r : Result (A × S)} {f : A → Tx S B}
    → Post Q r
    → ((a : A) (s : S) → Q a s → Post R (f a s))
    → Post R (bind r f)
unfolding bind
>>=-Post {r = ok (a, s)} h k = k a s h.holds
>>=-Post {r = err e} h k = record { holds = tt }
>>=-Post {r = panic} h k = record { holds = tt }

-- A weaker postcondition.
pub Post-mono {ℓ κ} :
    {S A : Type 0} {Q : A → S → Type ℓ} {R : A → S → Type κ} {r : Result (A × S)}
    → ((a : A) (s : S) → Q a s → R a s)
    → Post Q r
    → Post R r
Post-mono {r = ok (a, s)} k h = record { holds = k a s h.holds }
Post-mono {r = err e} k h = record { holds = tt }
Post-mono {r = panic} k h = record { holds = tt }

-- Two postconditions hold together.
pub Post-both {ℓ κ} :
    {S A : Type 0} {Q : A → S → Type ℓ} {R : A → S → Type κ} {r : Result (A × S)}
    → Post Q r
    → Post R r
    → Post (λ a s. Q a s × R a s) r
Post-both {r = ok (a, s)} h k = record { holds = (h.holds, k.holds) }
Post-both {r = err e} h k = record { holds = tt }
Post-both {r = panic} h k = record { holds = tt }

-- What a transaction leaves behind satisfies `P`, if a successful run does and the start does.
pub settled-keeps {ℓ} :
    {S A : Type 0} (P : S → Type ℓ) (s : S) (r : Result (A × S))
    → P s
    → Post (λ _ s'. P s') r
    → P (settled s r).1
settled-keeps P s (ok (a, s')) h k = k.holds
settled-keeps P s (err e) h k = h
settled-keeps P s panic h k = h

pub committed-keeps {ℓ} :
    {S A : Type 0} (P : S → Type ℓ) (s : S) (r : Result (Result A × S))
    → P s
    → Post (λ _ s'. P s') r
    → P (committed s r).1
committed-keeps P s (ok (a, s')) h k = k.holds
committed-keeps P s (err e) h k = h
committed-keeps P s panic h k = h

-- A transaction that returned `Ok` has run to its end.
pub settled-ok :
    {S A : Type 0} (s : S) (r : Result (A × S)) {a : A} {s' : S}
    → settled s r ≡ (ok a, s')
    → r ≡ ok (a, s')
settled-ok s (ok (b, t)) h = ground arith
settled-ok s (err e) h = ground arith
settled-ok s panic h = ground arith

-- The same at the end of a sequence.
pub reject-last {ℓ} :
    {S : Type 0} {R : Unit {0} → S → Type ℓ} {b : Bool} (s : S) (e : ProtocolErrorCode)
    → (b ≡ false → R tt s)
    → Post R (reject_if b e s)
unfolding reject_if
reject-last {b = true} s e k = record { holds = tt }
reject-last {b = false} s e k = record { holds = k refl }

pub ok_or-last {ℓ} :
    {S A : Type 0} {R : A → S → Type ℓ} {o : Option A} (s : S) (e : ProtocolErrorCode)
    → ((a : A) → o ≡ some a → R a s)
    → Post R (ok_or o e s)
unfolding ok_or
ok_or-last {o = some a} s e k = record { holds = k a refl }
ok_or-last {o = none} s e k = record { holds = tt }

-- What holds at the end of a run that is known to have succeeded.
pub Post-ok {ℓ} :
    {S A : Type 0} {Q : A → S → Type ℓ} {r : Result (A × S)} {a : A} {s : S}
    → Post Q r
    → r ≡ ok (a, s)
    → Q a s
Post-ok {Q = Q} h e = (subst (Post Q) e h).holds

pub lift-last {ℓ} :
    {S A : Type 0} {R : A → S → Type ℓ} {r : Result A} (s : S)
    → ((a : A) → r ≡ ok a → R a s)
    → Post R (lift r s)
unfolding lift
lift-last {r = ok a} s k = record { holds = k a refl }
lift-last {r = err e} s k = record { holds = tt }
lift-last {r = panic} s k = record { holds = tt }
