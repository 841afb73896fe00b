-- ===== src/Service/Answers.antt =====
-- Rules for a run that answers `Ok`, and what the loop of `sign` (crates/bloom-signer/src/service.rs)
-- has collected then.
use bloom_signer.Prelude.{
  ℕ, suc, true, false, Bool, List, [], ◌∷◌, ◌++◌, Option, none, some, ◌≡◌, ◌≢◌, refl, ap, subst,
  ◌∙◌, arith,
}
use bloom_signer.Prelude.Result.{Result, ok, err, panic, ProtocolErrorCode, ok_or}
use bloom_signer.Prelude.Action.{Action, proceed}
use bloom_signer.Signing.Request.{UnsignedSignRequest}
use bloom_signer.Signing.State.{SignerOperationEffect, Engine}
use bloom_signer.Signing.Effects.{finalize_operation}
use bloom_signer.Service.Types.{
  BackendInput, BackendSignature, BackendReply, signed, failed, NormalizedSignature, Backend,
}
use bloom_signer.Service.Sign.{
  ServiceDeps, Service, is_of_suite, finalize_with, check_signature, after_reply, backend_request,
  call_backend, sign_hashes,
}
use bloom_signer.Service.Collected.{asks, Collected, Feeds}
use bloom_signer.Service.Completes.{++-assoc_one, ++-none, normal, with_call, suite-of}

-- A step that answered `Ok` within a run that answered `Ok`.
proceed-ok :
    {S A B : Type 0} (r : Result A × S) (f : A → Action S B) (b : B) (s' : S)
    → proceed r f ≡ (ok b, s')
    → (a : A) × (s1 : S) × (r ≡ (ok a, s1)) × (f a s1 ≡ (ok b, s'))
unfolding proceed
proceed-ok (ok a, s) f b s' h = (a, s, refl, h)
proceed-ok (err e, s) f b s' h = ground arith
proceed-ok (panic, s) f b s' h = ground arith

-- What holds of the value and the state of an `Ok`.
abbrev pub AnswerOf : {S B : Type 0} → (B → S → Type 0) → Result B × S → Type 0
AnswerOf Q (ok b, s) = Q b s
AnswerOf Q (err e, s) = Unit
AnswerOf Q (panic, s) = Unit

pub record Answers {S B : Type 0} (Q : B → S → Type 0) (r : Result B × S) : Type 0 where
  pub holds : AnswerOf Q r

pub proceed-Answers :
    {S A B : Type 0} {Q : B → S → Type 0} (r : Result A × S) (f : A → Action S B)
    → ((a : A) (s1 : S) → r ≡ (ok a, s1) → Answers Q (f a s1))
    → Answers Q (proceed r f)
unfolding proceed
proceed-Answers (ok a, s) f k = k a s refl
proceed-Answers (err e, s) f k = record { holds = tt }
proceed-Answers (panic, s) f k = record { holds = tt }

pub read-Answers :
    {S A B : Type 0} {Q : B → S → Type 0} (r : Result A) (s : S) (f : A → Action S B)
    → ((a : A) → r ≡ ok a → Answers Q (f a s))
    → Answers Q (proceed (r, s) f)
unfolding proceed
read-Answers (ok a) s f k = k a refl
read-Answers (err e) s f k = record { holds = tt }
read-Answers panic s f k = record { holds = tt }

pub engine-Answers :
    {A B : Type 0} {Q : B → Service → Type 0} (o : Result A × Engine) (s : Service)
    (f : A → Action Service B)
    → ((a : A) (e : Engine) → o ≡ (ok a, e) → Answers Q (f a (record s { engine = e })))
    → Answers Q (proceed (o.0, record s { engine = o.1 }) f)
unfolding proceed
engine-Answers (ok a, e) s f k = k a e refl
engine-Answers (err c, e) s f k = record { holds = tt }
engine-Answers (panic, e) s f k = record { holds = tt }

pub last-Answers :
    {S B : Type 0} {Q : B → S → Type 0} (r : Result B) (s : S)
    → ((b : B) → r ≡ ok b → Q b s)
    → Answers Q (r, s)
last-Answers (ok b) s k = record { holds = k b refl }
last-Answers (err e) s k = record { holds = tt }
last-Answers panic s k = record { holds = tt }

pub Answers-mono :
    {S B : Type 0} {Q R : B → S → Type 0} (r : Result B × S)
    → ((b : B) (s : S) → Q b s → R b s)
    → Answers Q r
    → Answers R r
Answers-mono (ok b, s) k h = record { holds = k b s h.holds }
Answers-mono (err e, s) k h = record { holds = tt }
Answers-mono (panic, s) k h = record { holds = tt }

pub parsed-of :
    {A : Type 0} (o : Option A) (e : ProtocolErrorCode) (a : A) → ok_or o e ≡ ok a → o ≡ some a
parsed-of none e a h = ground arith
parsed-of (some b) e a h = ground arith

ended-ok :
    {S A : Type 0} (a b : A) (s s' : S)
    → ◌≡◌ {A = Result A × S} (ok a, s) (ok b, s')
    → (b ≡ a) × (s' ≡ s)
ended-ok a b s s' h = (ground arith, ground arith)

module _ (d : ServiceDeps) (u : UnsignedSignRequest) (backend : Backend) where
  -- A finalization of a failure is no answer.
  finalize-ne-ok :
      {A : Type 0} (effect : SignerOperationEffect) (code : ProtocolErrorCode) (s s' : Service)
      (a : A)
      → finalize_with d u.operation_id effect code s ≢ (ok a, s')
  unfolding finalize_with
  finalize-ne-ok effect code s s' a h = absurd (
      subst (AnswerOf (λ _ _. ⊥)) h
        (engine-Answers {Q = λ _ _. ⊥} (finalize_operation d.engine u.operation_id effect s.engine)
          s _ (λ _ e k. record { holds = tt })).holds)

  check-ok :
      (signature : BackendSignature) (good : Bool) (made : NormalizedSignature) (s s' : Service)
      → check_signature d u signature good s ≡ (ok made, s')
      → (good ≡ true) × (made ≡ normal signature) × (s' ≡ s)
  unfolding check_signature
  check-ok signature true made s s' h = let w = ended-ok _ made s s' h in (refl, w.0, w.1)
  check-ok signature false made s s' h = absurd (finalize-ne-ok _ _ s s' made h)

  reply-ok :
      (signatures : List NormalizedSignature) (reply : BackendReply) (made : NormalizedSignature)
      (s s' : Service)
      → after_reply d u signatures reply s ≡ (ok made, s')
      → (signature : BackendSignature) × (reply ≡ signed signature)
        × (is_of_suite u signature ≡ true)
        × (made ≡ normal signature)
        × (s' ≡ s)
  unfolding after_reply
  reply-ok signatures (failed error) made s s' h = absurd (finalize-ne-ok _ _ s s' made h)
  reply-ok signatures (signed signature) made s s' h =
      let w = check-ok signature (is_of_suite u signature) made s s' h in
      (signature, refl, w.0, w.1, w.2)

  call-ok :
      (index : ℕ) (signatures : List NormalizedSignature) (input : BackendInput)
      (made : NormalizedSignature) (s s' : Service)
      → call_backend d u backend index signatures (some input) s ≡ (ok made, s')
      → (signature : BackendSignature) × (backend s.calls (backend_request d u index input)
          ≡ signed signature)
        × (is_of_suite u signature ≡ true)
        × (made ≡ normal signature)
        × (s' ≡ with_call d u index input s)
  unfolding call_backend
  call-ok index signatures input made s s' h = reply-ok signatures _ made _ s' h

  pub loop-ok :
      (index : ℕ) (hashes : List ℕ) (inputs : List BackendInput)
      (signatures made : List NormalizedSignature) (s s' : Service)
      → Feeds u index hashes inputs
      → sign_hashes d u backend index hashes signatures s ≡ (ok made, s')
      → (more : List NormalizedSignature) × (made ≡ signatures ++ more)
        × (s' ≡ record s { calls = s.calls ++ asks d u index inputs })
        × Collected d u backend s.calls index inputs more
  unfolding sign_hashes asks
  loop-ok index [] [] signatures made s s' feeds h =
      let w = ended-ok signatures made s s' h in
      (
        [],
        w.0 ∙ ++-none signatures,
        w.1 ∙ ap (λ calls. record s { calls = calls }) (++-none s.calls),
        tt,
      )
  loop-ok index [] (input ∷ inputs) signatures made s s' feeds h = absurd feeds
  loop-ok index (hash ∷ hashes) [] signatures made s s' feeds h = absurd feeds
  loop-ok index (hash ∷ hashes) (input ∷ inputs) signatures made s s' feeds h =
      let first = proceed-ok _ _ made s' (rw feeds.0 at h) in
      let call = call-ok index signatures input first.0 s first.1 first.2 in
      let same = suite-of u call.0 call.2 in
      let rest =
        loop-ok (suc index) hashes inputs (signatures ++ first.0 ∷ []) made first.1 s' feeds.1
          first.3 in
      (
        first.0 ∷ rest.0,
        rest.1 ∙ ++-assoc_one signatures first.0 rest.0,
        rest.2
            ∙ ap (λ (x : Service). record x { calls = x.calls ++ asks d u (suc index) inputs })
                call.4
            ∙ ap (λ calls. record s { calls = calls }) (++-assoc_one s.calls _ _),
        (
          call.0,
          call.1,
          same.0,
          same.1,
          call.3 ∙ ap (λ suite. record { crypto_suite = suite; bytes = call.0.bytes }) same.0,
          subst (λ x. Collected d u backend x.calls (suc index) inputs rest.0) call.4 rest.3,
        ),
      )
