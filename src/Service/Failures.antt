-- ===== src/Service/Failures.antt =====
-- How the loop of `sign` (crates/bloom-signer/src/service.rs) fails.
use bloom_signer.Prelude.{
  ℕ, suc, Bool, true, false, List, [], ◌∷◌, ◌++◌, Option, none, some, ◌≡◌, refl, sym, subst, arith,
  ◌≢◌, ◌∙◌, Bool-cases, inl, inr,
}
use bloom_signer.Prelude.Result.{
  Result, ok, err, panic, ProtocolErrorCode, ambiguous_provider_effect,
}
use bloom_signer.Prelude.Action.{Action, proceed}
use bloom_signer.Signing.Request.{UnsignedSignRequest}
use bloom_signer.Signing.State.{SignerOperationEffect, released_effect, quarantined_effect, Engine}
use bloom_signer.Signing.Effects.{finalize_operation}
use bloom_signer.Service.Types.{
  input_kind, indeterminate_acceptance, BackendInput, BackendSignature, BackendError, BackendReply,
  signed, failed, map_backend_error, NormalizedSignature, Backend,
}
use bloom_signer.Service.Sign.{
  ServiceDeps, Service, backend_request, input_of, is_definitive, failure_effect, failure_code,
  finalize_with, check_signature, after_reply, backend_call, call_backend, sign_hashes,
}

-- What holds at the end of a run: `Q` of the state of a value, `E` of the code and the state of an error.
abbrev EndingOf :
    {S A : Type 0} → (S → Type 0) → (ProtocolErrorCode → S → Type 0) → Result A × S → Type 0
EndingOf Q E (ok a, s) = Q s
EndingOf Q E (err code, s) = E code s
EndingOf Q E (panic, s) = Unit

record Ending {S A : Type 0} (Q : S → Type 0) (E : ProtocolErrorCode → S → Type 0)
    (r : Result A × S) : Type 0 where
  holds : EndingOf Q E r

proceed-Ending :
    {S A B : Type 0} {Q R : S → Type 0} {E : ProtocolErrorCode → S → Type 0} {f : A → Action S B}
    (r : Result A × S)
    → Ending Q E r
    → ((a : A) (s : S) → Q s → Ending R E (f a s))
    → Ending R E (proceed r f)
unfolding proceed
proceed-Ending (ok a, s) h k = k a s h.holds
proceed-Ending (err code, s) h k = record { holds = h.holds }
proceed-Ending (panic, s) h k = record { holds = tt }

Ending-mono :
    {S A : Type 0} {Q R : S → Type 0} {E F : ProtocolErrorCode → S → Type 0} (r : Result A × S)
    → ((s : S) → Q s → R s)
    → ((code : ProtocolErrorCode) (s : S) → E code s → F code s)
    → Ending Q E r
    → Ending R F r
Ending-mono (ok a, s) q k h = record { holds = q s h.holds }
Ending-mono (err code, s) q k h = record { holds = k code s h.holds }
Ending-mono (panic, s) q k h = record { holds = tt }

module _ (d : ServiceDeps) (u : UnsignedSignRequest) (e : Engine) where
  -- The operation was finalized in the engine `e` with an effect, and the answer is the code told or
  -- the one with which the finalization failed.
  pub data IsFinalized (effect : SignerOperationEffect) (told code : ProtocolErrorCode)
      (s' : Service) : Type 0 where
    finalized :
        finalize_operation d.engine u.operation_id effect e ≡ (ok tt, s'.engine)
        → code ≡ told
        → IsFinalized effect told code s'
    not_finalized :
        finalize_operation d.engine u.operation_id effect e ≡ (err code, s'.engine)
        → IsFinalized effect told code s'

  -- The engine is as it was when the loop began.
  abbrev IsHere : Service → Type 0
  IsHere s = s.engine ≡ e

  abbrev IsAmbiguous : ProtocolErrorCode → Service → Type 0
  IsAmbiguous = IsFinalized quarantined_effect ambiguous_provider_effect

  finalize-Ending :
      (A : Type 0) (Q : Service → Type 0) (effect : SignerOperationEffect)
      (code : ProtocolErrorCode) (s : Service)
      → IsHere s
      → Ending Q
          (λ c s'. IsFinalized effect code c s' × (s'.calls ≡ s.calls))
          (finalize_with {A = A} d u.operation_id effect code s)
  unfolding finalize_with proceed
  finalize-Ending A Q effect code s here =
      from (finalize_operation d.engine u.operation_id effect s.engine).0
        (finalize_operation d.engine u.operation_id effect s.engine).1 refl
    where
      from :
          (r : Result (Unit {0})) (e' : Engine)
          → finalize_operation d.engine u.operation_id effect s.engine ≡ (r, e')
          → Ending Q
              (λ c s'. IsFinalized effect code c s' × (s'.calls ≡ s.calls))
              (finalize_with {A = A} d u.operation_id effect code s)
      from (ok tt) e' k = rw k (record { holds = (finalized (rw here at k) refl, refl) })
      from (err c) e' k = rw k (record { holds = (not_finalized (rw here at k), refl) })
      from panic e' k = rw k (record { holds = tt })

  quarantine-Ending :
      (A : Type 0) (Q : Service → Type 0) (s : Service)
      → IsHere s
      → Ending Q IsAmbiguous
          (finalize_with {A = A} d u.operation_id quarantined_effect ambiguous_provider_effect s)
  quarantine-Ending A Q s here =
      Ending-mono _ (λ s' q. q) (λ c s' k. k.0)
        (finalize-Ending A Q quarantined_effect ambiguous_provider_effect s here)

  check-Ending :
      (signature : BackendSignature) (good : Bool) (s : Service)
      → IsHere s
      → Ending IsHere IsAmbiguous (check_signature d u signature good s)
  unfolding check_signature
  check-Ending signature true s here = record { holds = here }
  check-Ending signature false s here = quarantine-Ending _ _ s here

  -- After a signature, every failure is ambiguous.
  later-Ending :
      (first : NormalizedSignature) (signatures : List NormalizedSignature) (reply : BackendReply)
      (s : Service)
      → IsHere s
      → Ending IsHere IsAmbiguous (after_reply d u (first ∷ signatures) reply s)
  unfolding after_reply failure_effect failure_code
  later-Ending first signatures (failed error) s here = quarantine-Ending _ _ s here
  later-Ending first signatures (signed signature) s here = check-Ending signature _ s here

  call-Ending :
      (backend : Backend) (index : ℕ) (first : NormalizedSignature)
      (signatures : List NormalizedSignature) (input : Option BackendInput) (s : Service)
      → IsHere s
      → Ending IsHere IsAmbiguous (call_backend d u backend index (first ∷ signatures) input s)
  unfolding call_backend
  call-Ending backend index first signatures none s here = record { holds = tt }
  call-Ending backend index first signatures (some input) s here =
      later-Ending first signatures _ _ here

  loop-Ending :
      (backend : Backend) (index : ℕ) (hashes : List ℕ) (first : NormalizedSignature)
      (signatures : List NormalizedSignature) (s : Service)
      → IsHere s
      → Ending IsHere IsAmbiguous (sign_hashes d u backend index hashes (first ∷ signatures) s)
  unfolding sign_hashes
  loop-Ending backend index [] first signatures s here = record { holds = here }
  loop-Ending backend index (hash ∷ hashes) first signatures s here =
      proceed-Ending _ (call-Ending backend index first signatures _ s here)
        λ signature s1 k. loop-Ending backend (suc index) hashes first _ s1 k

module _ (d : ServiceDeps) (u : UnsignedSignRequest) (backend : Backend) (s : Service) where
  -- The failure of a loop whose first call has an input. Only a first call that answers an error other
  -- than the indeterminate one releases the operation, and is then the only call.
  pub data IsFailure (input : BackendInput) (code : ProtocolErrorCode) (s' : Service) : Type 0 where
    refused :
        (error : BackendError)
        → backend s.calls (backend_request d u 0 input) ≡ failed error
        → error ≢ indeterminate_acceptance
        → s'.calls ≡ s.calls ++ backend_call u 0 (backend_request d u 0 input) ∷ []
        → IsFinalized d u s.engine released_effect (map_backend_error error) code s'
        → IsFailure input code s'
    ambiguous :
        ((error : BackendError)
          → backend s.calls (backend_request d u 0 input) ≡ failed error
          → error ≡ indeterminate_acceptance)
        → IsFinalized d u s.engine quarantined_effect ambiguous_provider_effect code s'
        → IsFailure input code s'

definitive-ne :
    (error : BackendError) → is_definitive error ≡ true → error ≢ indeterminate_acceptance
unfolding is_definitive
definitive-ne error h e = ground arith

indefinite-eq :
    (error : BackendError) → is_definitive error ≡ false → error ≡ indeterminate_acceptance
unfolding is_definitive
indefinite-eq error h = ground arith

failed-eq : (a b : BackendError) → failed a ≡ failed b → a ≡ b
failed-eq a b h = cc

signed-ne : (a : BackendSignature) (b : BackendError) → signed a ≢ failed b
signed-ne a b h = ground arith

module _ (d : ServiceDeps) (u : UnsignedSignRequest) (backend : Backend) (s : Service)
    (input : BackendInput) where
  first-Ending :
      (reply : BackendReply)
      → backend s.calls (backend_request d u 0 input) ≡ reply
      → Ending
          (λ s'. IsHere d u s.engine s' × ((error : BackendError) → reply ≢ failed error))
          (IsFailure d u backend s input)
          (after_reply d u [] reply
            (record s { calls = s.calls ++ backend_call u 0 (backend_request d u 0 input) ∷ [] }))
  unfolding after_reply failure_effect failure_code
  first-Ending (failed error) e = elim (Bool-cases (is_definitive error)) [
    | inl h ↦ rw h (
        Ending-mono _ (λ s' q. q) (λ c s' k. refused error e (definitive-ne error h) k.1 k.0)
          (finalize-Ending d u s.engine _ _ released_effect (map_backend_error error) _ refl))
    | inr h ↦ rw h (
        Ending-mono _ (λ s' q. q)
          (λ c s' k. ambiguous (λ other o. failed-eq _ _ (sym o ∙ e) ∙ indefinite-eq error h) k)
          (quarantine-Ending d u s.engine _ _ _ refl))
  ]
  first-Ending (signed signature) e =
      Ending-mono _ (λ s' here. (here, signed-ne signature))
        (λ c s' k. ambiguous (λ other o. absurd (signed-ne signature other (sym e ∙ o))) k)
        (check-Ending d u s.engine signature _ _ refl)

  all-Ending :
      (hash : ℕ) (hashes : List ℕ)
      → input_of (input_kind u.crypto_suite) u 0 hash ≡ some input
      → Ending
          (IsHere d u s.engine)
          (IsFailure d u backend s input)
          (sign_hashes d u backend 0 (hash ∷ hashes) [] s)
  unfolding sign_hashes call_backend
  all-Ending hash hashes given = rw given (
      proceed-Ending _ (first-Ending _ refl) λ signature s1 q.
        Ending-mono _ (λ s' here. here) (λ c s' k. ambiguous (λ other o. absurd (q.1 other o)) k)
          (loop-Ending d u s.engine backend 1 hashes signature [] s1 q.0))

  -- A failure never hides a signature: when the loop of `sign` fails at the hashes of an operation, the
  -- first of which has an input, then the only backend call was the first, was answered with an
  -- error that is not `IndeterminateAcceptance`, and the operation was released in the engine before
  -- the loop, with the code of that error; or the first call was answered otherwise, and the
  -- operation was quarantined in that engine, with the code `AMBIGUOUS_PROVIDER_EFFECT`. If that
  -- finalization itself fails, the code is its own. The engine is in each case the one that the
  -- finalization leaves.
  pub sign_hashes-IsFailure :
      (hash : ℕ) (hashes : List ℕ) (s' : Service) (code : ProtocolErrorCode)
      → input_of (input_kind u.crypto_suite) u 0 hash ≡ some input
      → sign_hashes d u backend 0 (hash ∷ hashes) [] s ≡ (err code, s')
      → IsFailure d u backend s input code s'
  sign_hashes-IsFailure hash hashes s' code given e =
      subst (λ r. EndingOf (IsHere d u s.engine) (IsFailure d u backend s input) r) e
        (all-Ending hash hashes given).holds
