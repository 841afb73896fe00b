-- ===== src/Service/Once.antt =====
-- No hash of an operation is sent to a backend twice (`sign` of crates/bloom-signer/src/service.rs).
use bloom_signer.Prelude.{
  ℕ, suc, ◌≤◌, Bool, true, false, List, [], ◌∷◌, Option, none, some, ◌≡◌, refl, ap, ◌⊎◌, ◌∙◌,
  count_where, arith, inl, inr,
}
use bloom_signer.Prelude.Result.{ok, ProtocolErrorCode}
use bloom_signer.Prelude.Action.{Ends, Ends-always, proceed-Ends, read-Ends}
use bloom_signer.Signing.Request.{UnsignedSignRequest, SignRequest}
use bloom_signer.Signing.State.{PlatformTimeReading, SignerOperationEffect}
use bloom_signer.Signing.Effects.{
  mark_operation_dispatched, commit_operation_result, finalize_operation,
}
use bloom_signer.Signing.Authorize.{authorize_sign}
use bloom_signer.Signing.Counted.{IsConsistent}
use bloom_signer.Signing.Calls.{step, authorize, dispatch, result, finalize}
use bloom_signer.Signing.Once.{dispatch_refused, dispatch-HasLeft}
use bloom_signer.Service.Types.{
  BackendInput, BackendSignature, BackendReply, signed, failed, BackendCall, NormalizedSignature,
  Backend,
}
use bloom_signer.Service.Sign.{
  ServiceDeps, Service, observe_clock, finalize_with, check_signature, after_reply, backend_call,
  call_backend, sign_hashes, sign_now, sign_authorized, sign,
}
use bloom_signer.Service.Follows.{Follows-step, observe_clock-Follows}
use bloom_signer.Service.History.{ServiceCall, sign_call, engine_call, serve, serve_all, is_call}
use bloom_signer.Service.Asked.{asked, IsOnce, IsAt, Follows-IsOnce, engine-Ends, asked-IsAt}

module _ (d : ServiceDeps) (u : UnsignedSignRequest) where
  abbrev At : ℕ → Service → Type 0
  At index s = IsAt u.operation_id index s

  finalize-Ends :
      (A : Type 0) (index : ℕ) (effect : SignerOperationEffect) (code : ProtocolErrorCode)
      (s : Service)
      → At index s
      → Ends (λ _ s'. At index s') IsOnce (finalize_with {A = A} d u.operation_id effect code s)
  unfolding finalize_with step
  finalize-Ends A index effect code s h =
      proceed-Ends _
        (engine-Ends d (finalize_operation d.engine u.operation_id effect) s
          (Follows-step d.engine (finalize u.operation_id effect) s.engine) h.all)
        λ _ s1 k. record { holds = k }

  check_signature-Ends :
      (index : ℕ) (signature : BackendSignature) (good : Bool) (s : Service)
      → At index s
      → Ends (λ _ s'. At index s') IsOnce (check_signature d u signature good s)
  unfolding check_signature
  check_signature-Ends index signature true s h = record { holds = h }
  check_signature-Ends index signature false s h = finalize-Ends _ index _ _ s h

  after_reply-Ends :
      (index : ℕ) (signatures : List NormalizedSignature) (reply : BackendReply) (s : Service)
      → At index s
      → Ends (λ _ s'. At index s') IsOnce (after_reply d u signatures reply s)
  unfolding after_reply
  after_reply-Ends index signatures (failed error) s h = finalize-Ends _ index _ _ s h
  after_reply-Ends index signatures (signed signature) s h =
      check_signature-Ends index signature _ s h

  call_backend-Ends :
      (backend : Backend) (index : ℕ) (signatures : List NormalizedSignature)
      (input : Option BackendInput) (s : Service)
      → At index s
      → Ends (λ _ s'. At (suc index) s') IsOnce (call_backend d u backend index signatures input s)
  unfolding call_backend
  call_backend-Ends backend index signatures none s h = record { holds = h.all }
  call_backend-Ends backend index signatures (some input) s h =
      after_reply-Ends (suc index) signatures _ _
        (asked-IsAt u.operation_id index s (backend_call u index _) refl refl h)

  sign_hashes-Ends :
      (backend : Backend) (index : ℕ) (hashes : List ℕ) (signatures : List NormalizedSignature)
      (s : Service)
      → At index s
      → Ends (λ _ s'. IsOnce s') IsOnce (sign_hashes d u backend index hashes signatures s)
  unfolding sign_hashes
  sign_hashes-Ends backend index [] signatures s h = record { holds = h.all }
  sign_hashes-Ends backend index (hash ∷ hashes) signatures s h =
      proceed-Ends _ (call_backend-Ends backend index signatures _ s h)
        λ signature s1 k. sign_hashes-Ends backend (suc index) hashes _ s1 k

  -- A dispatch that succeeded: nothing was sent of the operation before.
  dispatched-IsAt :
      (attempts : List ℕ) (s : Service)
      → IsOnce s
      → (mark_operation_dispatched d.engine u.operation_id u.key_ref attempts s.engine).0 ≡ ok tt
      → At 0 (record s {
        engine = (mark_operation_dispatched d.engine u.operation_id u.key_ref attempts s.engine).1;
      })
  unfolding step
  dispatched-IsAt attempts s h e =
      let e' = (mark_operation_dispatched d.engine u.operation_id u.key_ref attempts s.engine).1 in
      record {
        all =
            Follows-IsOnce d s e'
              (Follows-step d.engine (dispatch u.operation_id u.key_ref attempts) s.engine) h;
        ahead = λ later k. elim (zero_or_more (asked u.operation_id later s)) [
          | inl z ↦ z
          | inr m ↦ absurd (
              dispatch_refused d.engine u.operation_id u.key_ref attempts s.engine
                (h.left u.operation_id later m) e)
        ];
        gone =
            dispatch-HasLeft d.engine u.operation_id u.key_ref attempts s.engine e'
              (ap (λ x. (x, e')) e);
      }
    where
      zero_or_more : (n : ℕ) → (n ≡ 0) ⊎ (1 ≤ n)
      zero_or_more n = ground arith

  sign_now-Ends : (s : Service) → IsOnce s → Ends (λ _ s'. IsOnce s') IsOnce (sign_now d u s)
  unfolding sign_now step
  sign_now-Ends s h =
      proceed-Ends _
        (read-Ends _ _ (λ done e. dispatched-IsAt _ s h (e ∙ only_tt done))
          (Follows-IsOnce d s _
            (Follows-step d.engine (dispatch u.operation_id u.key_ref _) s.engine) h))
        λ _ s1 k. proceed-Ends _ (read-Ends _ s1 (λ backend e. k) k.all) λ backend s2 k2.
          proceed-Ends _ (sign_hashes-Ends backend 0 _ _ s2 k2) λ signatures s3 k3.
            proceed-Ends _ (read-Ends _ s3 (λ receipt e. k3) k3) λ receipt s4 k4.
              proceed-Ends _ (read-Ends _ s4 (λ bytes e. k4) k4) λ bytes s5 k5.
                proceed-Ends _
                  (engine-Ends d (commit_operation_result d.engine u.operation_id bytes) s5
                    (Follows-step d.engine (result u.operation_id bytes) s5.engine) k5)
                  λ _ s6 k6. record { holds = k6 }
    where
      only_tt : (done : Unit {0}) → ok done ≡ ok tt
      only_tt tt = refl

  sign_authorized-Ends :
      (stored : Option (List ℕ)) (s : Service)
      → IsOnce s
      → Ends (λ _ s'. IsOnce s') IsOnce (sign_authorized d u stored s)
  unfolding sign_authorized
  sign_authorized-Ends (some bytes) s h = read-Ends _ s (λ a e. h) h
  sign_authorized-Ends none s h = sign_now-Ends s h

sign-IsOnce :
    (d : ServiceDeps) (request : SignRequest) (reading : Option PlatformTimeReading) (s : Service)
    → IsOnce s
    → IsOnce (sign d request reading s).1
unfolding sign step
sign-IsOnce d request reading s h = Ends-always _ (
    proceed-Ends _ (read-Ends _ s (λ required e. h) h) λ required s1 k1.
      proceed-Ends _
        (engine-Ends d (observe_clock d required reading) s1
          (observe_clock-Follows d required reading s1.engine) k1)
        λ clock s2 k2.
          proceed-Ends _
            (engine-Ends d (authorize_sign d.engine request clock) s2
              (Follows-step d.engine (authorize request clock) s2.engine) k2)
            λ authorization s3 k3.
              proceed-Ends _ (read-Ends _ s3 (λ stored e. k3) k3)
                λ stored s4 k4. sign_authorized-Ends d request.unsigned _ s4 k4)

serve_all-IsOnce :
    (d : ServiceDeps) (calls : List ServiceCall) (s : Service)
    → IsOnce s
    → IsOnce (serve_all d calls s)
unfolding serve_all serve
serve_all-IsOnce d [] s h = h
serve_all-IsOnce d (sign_call request reading ∷ calls) s h =
    serve_all-IsOnce d calls _ (sign-IsOnce d request reading s h)
serve_all-IsOnce d (engine_call call ∷ calls) s h =
    serve_all-IsOnce d calls _
      (Follows-IsOnce d s (step d.engine call s.engine) (Follows-step d.engine call s.engine) h)

count-none : (test : BackendCall → Bool) → count_where test [] ≡ 0
unfolding count_where
count-none test = refl

-- No hash is sent to a backend twice: from consistent tables and before any backend call, in every
-- history of `sign` calls and other calls of the engine, whatever the backends answer and whichever
-- calls fail, the backends are called at most once for each index of each operation.
pub serve_all-sent_once :
    (d : ServiceDeps) (calls : List ServiceCall) (s : Service) (operation index : ℕ)
    → IsConsistent s.engine.tables
    → s.calls ≡ []
    → count_where (is_call operation index) (serve_all d calls s).calls ≤ 1
serve_all-sent_once d calls s operation index c e =
    (serve_all-IsOnce d calls s (record {
      consistent = c;
      once = λ o i. let z = none_asked o i in omega arith;
      left = λ o i k. let z = none_asked o i in absurd (omega arith);
    })).once
      operation index
  where
    nothing : (o i : ℕ) (rows : List BackendCall) → rows ≡ [] → count_where (is_call o i) rows ≡ 0
    nothing o i rows e = rw e (count-none (is_call o i))

    none_asked : (o i : ℕ) → asked o i s ≡ 0
    none_asked o i = nothing o i s.calls e
