-- ===== src/Service/Follows.antt =====
-- The service's `sign` (crates/bloom-signer/src/service.rs) as a sequence of calls of the engine.
use bloom_signer.Prelude.{
  ℕ, suc, Bool, true, false, List, [], ◌∷◌, ◌++◌, Option, none, some, ◌≡◌, refl, sym, ◌∙◌,
}
use bloom_signer.Prelude.Result.{Result, ok, err, panic, ProtocolErrorCode}
use bloom_signer.Prelude.Action.{Action, proceed}
use bloom_signer.Signing.Request.{UnsignedSignRequest, SignRequest}
use bloom_signer.Signing.State.{SignerOperationEffect, PlatformTimeReading, Engine, Deps}
use bloom_signer.Signing.Effects.{mark_operation_dispatched}
use bloom_signer.Signing.Calls.{Call, authorize, dispatch, result, finalize, observe, step, run}
use bloom_signer.Service.Types.{
  BackendInput, BackendSignature, BackendReply, signed, failed, NormalizedSignature, Backend,
}
use bloom_signer.Service.Sign.{
  ServiceDeps, Service, observe_reading, observe_clock, finalize_with, check_signature, after_reply,
  call_backend, sign_hashes, sign_now, sign_authorized, sign,
}

run-++ :
    (deps : Deps) (xs ys : List Call) (s : Engine)
    → run deps (xs ++ ys) s ≡ run deps ys (run deps xs s)
unfolding run
run-++ deps [] ys s = refl
run-++ deps (x ∷ xs) ys s = run-++ deps xs ys (step deps x s)

-- The engine has moved by calls of the signing interface only.
abbrev pub Follows : Deps → Engine → Engine → Type 0
Follows deps e e' = (calls : List Call) × (e' ≡ run deps calls e)

module _ (deps : Deps) where
  pub Follows-refl : (e : Engine) → Follows deps e e
  unfolding run
  Follows-refl e = ([], refl)

  pub Follows-step : (call : Call) (e : Engine) → Follows deps e (step deps call e)
  unfolding run
  Follows-step call e = (call ∷ [], refl)

  pub Follows-then :
      (e e' e'' : Engine) → Follows deps e e' → Follows deps e' e'' → Follows deps e e''
  Follows-then e e' e'' a b = (a.0 ++ b.0, b.1 ∙ rw a.1 (sym (run-++ deps a.0 b.0 e)))

module _ (d : ServiceDeps) where
  -- A sequence of two parts.
  pub proceed-Follows :
      {A B : Type 0} (e : Engine) (r : Result A × Service) (f : A → Action Service B)
      → Follows d.engine e r.1.engine
      → ((a : A) (s : Service) → Follows d.engine s.engine (f a s).1.engine)
      → Follows d.engine e (proceed r f).1.engine
  unfolding proceed
  proceed-Follows e (ok a, s) f h k = Follows-then d.engine e s.engine _ h (k a s)
  proceed-Follows e (err code, s) f h k = h
  proceed-Follows e (panic, s) f h k = h

  pub finalize_with-Follows :
      (A : Type 0) (operation : ℕ) (effect : SignerOperationEffect) (code : ProtocolErrorCode)
      (s : Service)
      → Follows d.engine s.engine (finalize_with {A = A} d operation effect code s).1.engine
  unfolding finalize_with step
  finalize_with-Follows A operation effect code s =
      proceed-Follows s.engine _ _ (Follows-step d.engine (finalize operation effect) s.engine)
        λ _ s1. Follows-refl d.engine s1.engine

  check_signature-Follows :
      (u : UnsignedSignRequest) (signature : BackendSignature) (good : Bool) (s : Service)
      → Follows d.engine s.engine (check_signature d u signature good s).1.engine
  unfolding check_signature
  check_signature-Follows u signature true s = Follows-refl d.engine s.engine
  check_signature-Follows u signature false s = finalize_with-Follows _ u.operation_id _ _ s

  pub after_reply-Follows :
      (u : UnsignedSignRequest) (signatures : List NormalizedSignature) (reply : BackendReply)
      (s : Service)
      → Follows d.engine s.engine (after_reply d u signatures reply s).1.engine
  unfolding after_reply
  after_reply-Follows u signatures (failed error) s = finalize_with-Follows _ u.operation_id _ _ s
  after_reply-Follows u signatures (signed signature) s = check_signature-Follows u signature _ s

  pub call_backend-Follows :
      (u : UnsignedSignRequest) (backend : Backend) (index : ℕ)
      (signatures : List NormalizedSignature) (input : Option BackendInput) (s : Service)
      → Follows d.engine s.engine (call_backend d u backend index signatures input s).1.engine
  unfolding call_backend
  call_backend-Follows u backend index signatures none s = Follows-refl d.engine s.engine
  call_backend-Follows u backend index signatures (some input) s =
      after_reply-Follows u signatures _ _

  pub sign_hashes-Follows :
      (u : UnsignedSignRequest) (backend : Backend) (index : ℕ) (hashes : List ℕ)
      (signatures : List NormalizedSignature) (s : Service)
      → Follows d.engine s.engine (sign_hashes d u backend index hashes signatures s).1.engine
  unfolding sign_hashes
  sign_hashes-Follows u backend index [] signatures s = Follows-refl d.engine s.engine
  sign_hashes-Follows u backend index (hash ∷ hashes) signatures s =
      proceed-Follows s.engine _ _ (call_backend-Follows u backend index signatures _ s)
        λ signature s1. sign_hashes-Follows u backend (suc index) hashes _ s1

  pub after_dispatch-Follows :
      (u : UnsignedSignRequest) (s : Service) → Follows d.engine s.engine (sign_now d u s).1.engine
  unfolding sign_now step mark_operation_dispatched
  after_dispatch-Follows u s =
      proceed-Follows s.engine _ _
        (Follows-step d.engine (dispatch u.operation_id u.key_ref _) s.engine)
        λ _ s1. proceed-Follows s1.engine _ _ (Follows-refl d.engine s1.engine) λ backend s2.
          proceed-Follows s2.engine _ _ (sign_hashes-Follows u backend 0 _ _ s2) λ signatures s3.
            proceed-Follows s3.engine _ _ (Follows-refl d.engine s3.engine) λ receipt s4.
              proceed-Follows s4.engine _ _ (Follows-refl d.engine s4.engine) λ bytes s5.
                proceed-Follows s5.engine _ _
                  (Follows-step d.engine (result u.operation_id bytes) s5.engine)
                  λ _ s6. Follows-refl d.engine s6.engine

  observe_reading-Follows :
      (guarded rate_limited : Bool) (reading : PlatformTimeReading) (e : Engine)
      → Follows d.engine e (observe_reading d guarded rate_limited reading e).1
  unfolding observe_reading step
  observe_reading-Follows false rate_limited reading e = Follows-refl d.engine e
  observe_reading-Follows true rate_limited reading e =
      Follows-step d.engine (observe reading d.clock_boot_epoch d.max_forward_step_ms rate_limited)
        e

  pub observe_clock-Follows :
      (rate_limited : Bool) (reading : Option PlatformTimeReading) (e : Engine)
      → Follows d.engine e (observe_clock d rate_limited reading e).1
  unfolding observe_clock
  observe_clock-Follows rate_limited none e = Follows-refl d.engine e
  observe_clock-Follows rate_limited (some reading) e =
      observe_reading-Follows _ rate_limited reading e

  sign_authorized-Follows :
      (u : UnsignedSignRequest) (stored : Option (List ℕ)) (s : Service)
      → Follows d.engine s.engine (sign_authorized d u stored s).1.engine
  unfolding sign_authorized
  sign_authorized-Follows u (some bytes) s = Follows-refl d.engine s.engine
  sign_authorized-Follows u none s = after_dispatch-Follows u s

  -- Whatever `sign` answers, the engine that it leaves is reached by calls of the signing interface.
  pub sign-Follows :
      (request : SignRequest) (reading : Option PlatformTimeReading) (s : Service)
      → Follows d.engine s.engine (sign d request reading s).1.engine
  unfolding sign step
  sign-Follows request reading s =
      proceed-Follows s.engine _ _ (Follows-refl d.engine s.engine) λ required s1.
        proceed-Follows s1.engine _ _ (observe_clock-Follows required reading s1.engine) λ clock s2.
          proceed-Follows s2.engine _ _ (Follows-step d.engine (authorize request clock) s2.engine)
            λ authorization s3.
              proceed-Follows s3.engine _ _ (Follows-refl d.engine s3.engine)
                λ stored s4. sign_authorized-Follows request.unsigned _ s4
