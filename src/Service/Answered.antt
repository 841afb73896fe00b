-- ===== src/Service/Answered.antt =====
-- What an `Ok` answer of `sign` (crates/bloom-signer/src/service.rs) rests on.
use bloom_signer.Prelude.{
  ℕ, Bool, List, [], ◌++◌, Option, none, some, ◌≡◌, refl, sym, ap, subst, ◌∙◌, ◌⊎◌, inl, inr,
}
use bloom_signer.Prelude.Result.{Result, ok}
use bloom_signer.Signing.Request.{SignRequest}
use bloom_signer.Signing.State.{
  SignAuthorization, new_operation, same_operation_retry, PlatformTimeReading, Engine,
  ClockDecision,
}
use bloom_signer.Signing.Authorize.{authorize_sign}
use bloom_signer.Signing.Effects.{
  mark_operation_dispatched, commit_operation_result, stored_operation_result,
}
use bloom_signer.Signing.Sound.{authorize_sign-IsSound}
use bloom_signer.Service.Types.{input_kind, SigningResult, Backend}
use bloom_signer.Service.Sign.{
  ServiceDeps, Service, approval_requires_trusted_time, observe_clock, provider_attempt_ids,
  signer_receipt_digest, sign_now, recovered, sign_authorized, sign,
}
use bloom_signer.Service.Collected.{inputs_of, asks, Collected, request-Feeds}
use bloom_signer.Service.Answers.{
  AnswerOf, Answers, proceed-Answers, read-Answers, engine-Answers, last-Answers, Answers-mono,
  parsed-of, loop-ok,
}

-- The clock was read and the engine authorized the request; the engine is then `e`.
pub record IsAuthorized (d : ServiceDeps) (request : SignRequest)
    (reading : Option PlatformTimeReading) (authorization : SignAuthorization) (s : Service)
    (e : Engine) : Type 0 where
  pub required : Bool
  pub clock : ClockDecision
  pub observed : Engine
  pub by_terms :
      approval_requires_trusted_time request.unsigned.approval_id s.engine.tables ≡ ok required
  pub read_clock : observe_clock d required reading s.engine ≡ (ok clock, observed)
  pub authorized : authorize_sign d.engine request clock observed ≡ (ok authorization, e)

-- The result was made in this run: authorized and not stored, dispatched, signed by the backend for each
-- input in order, and committed.
pub record IsMade (d : ServiceDeps) (request : SignRequest) (reading : Option PlatformTimeReading)
    (s : Service) (result : SigningResult) (s' : Service) : Type 0 where
  pub authorization : SignAuthorization
  pub before_dispatch : Engine
  pub dispatched : Engine
  pub backend : Backend
  pub bytes : List ℕ
  pub authorized : IsAuthorized d request reading authorization s before_dispatch
  pub not_stored :
      (authorization ≡ new_operation)
      ⊎ (stored_operation_result request.unsigned.operation_id before_dispatch.tables ≡ none)
  pub dispatch_marked :
      mark_operation_dispatched d.engine request.unsigned.operation_id request.unsigned.key_ref
        (provider_attempt_ids d request.unsigned.operation_digest 0 request.unsigned.ordered_hashes)
        before_dispatch
      ≡ (ok tt, dispatched)
  pub routed :
      d.get_backend request.unsigned.key_ref.backend request.unsigned.key_ref.backend_instance
      ≡ ok backend
  pub collected :
      Collected d request.unsigned backend s.calls 0
        (inputs_of (input_kind request.unsigned.crypto_suite) request.unsigned)
        result.signatures
  pub asked :
      s'.calls
      ≡ s.calls
        ++ asks d request.unsigned 0
            (inputs_of (input_kind request.unsigned.crypto_suite) request.unsigned)
  pub operation : result.operation_id ≡ request.unsigned.operation_id
  pub digest : result.operation_digest ≡ request.unsigned.operation_digest
  pub receipt :
      signer_receipt_digest d request.unsigned result.signatures ≡ ok result.signer_receipt_digest
  pub broker_receipt : result.broker_receipt_digest ≡ request.unsigned.validation_receipt_digest
  pub written : d.result_jcs result ≡ ok bytes
  pub result_committed :
      commit_operation_result d.engine request.unsigned.operation_id bytes dispatched
      ≡ (ok tt, s'.engine)

-- The result was stored before: the run authorized a retry and called no backend.
pub record IsRecalled (d : ServiceDeps) (request : SignRequest)
    (reading : Option PlatformTimeReading) (s : Service) (result : SigningResult) (s' : Service)
    : Type 0 where
  pub bytes : List ℕ
  pub authorized : IsAuthorized d request reading same_operation_retry s s'.engine
  pub stored : stored_operation_result request.unsigned.operation_id s'.engine.tables ≡ some bytes
  pub parsed : d.parse_result bytes ≡ some result
  pub unasked : s'.calls ≡ s.calls

pub data IsAnswered (d : ServiceDeps) (request : SignRequest) (reading : Option PlatformTimeReading)
    (s : Service) (result : SigningResult) (s' : Service) : Type 0 where
  was_made : IsMade d request reading s result s' → IsAnswered d request reading s result s'
  was_recalled : IsRecalled d request reading s result s' → IsAnswered d request reading s result s'

module _ (d : ServiceDeps) (request : SignRequest) (reading : Option PlatformTimeReading)
    (s : Service) where
  sign_now-Answers :
      (authorization : SignAuthorization) (e : Engine)
      → IsAuthorized d request reading authorization s e
      → (authorization ≡ new_operation)
        ⊎ (stored_operation_result request.unsigned.operation_id e.tables ≡ none)
      → Answers (IsMade d request reading s) (sign_now d request.unsigned (record s { engine = e }))
  unfolding sign_now
  sign_now-Answers authorization e a fresh =
      let u = request.unsigned in
      let sound =
        authorize_sign-IsSound d.engine request a.clock a.observed e authorization a.authorized in
      let feeds = request-Feeds u d.engine.hashes sound.genuine.messages in
      engine-Answers _ (record s { engine = e }) _
        λ done e1 dispatched.
          read-Answers _ (record s { engine = e1 }) _
            λ backend routed. proceed-Answers _ _ λ signatures s2 looped.
              read-Answers _ s2 _ λ receipt received. read-Answers _ s2 _ λ bytes written.
                engine-Answers _ s2 _ λ stored e3 committed.
                  let w =
                    loop-ok d u backend 0 u.ordered_hashes (inputs_of (input_kind u.crypto_suite) u)
                      [] signatures (record s { engine = e1 }) s2 feeds looped in
                  record {
                    holds = record {
                      authorization = authorization;
                      before_dispatch = e;
                      dispatched = e1;
                      backend = backend;
                      bytes = bytes;
                      authorized = a;
                      not_stored = fresh;
                      dispatch_marked = dispatched ∙ only_tt done e1;
                      routed = routed;
                      collected =
                          subst
                            (Collected d u backend s.calls 0
                              (inputs_of (input_kind u.crypto_suite) u))
                            (sym w.1) w.3;
                      asked = ap (λ x. x.calls) w.2;
                      operation = refl;
                      digest = refl;
                      receipt = received;
                      broker_receipt = refl;
                      written = written;
                      result_committed =
                          subst
                            (λ (x : Service).
                              commit_operation_result d.engine u.operation_id bytes x.engine
                              ≡ (ok tt, e3))
                            w.2 (committed ∙ only_tt stored e3);
                    };
                  }
    where
      only_tt :
          (done : Unit {0}) (e : Engine)
          → ◌≡◌ {A = Result (Unit {0}) × Engine} (ok done, e) (ok tt, e)
      only_tt tt e = refl

  sign_authorized-Answers :
      (authorization : SignAuthorization) (e : Engine) (stored : Option (List ℕ))
      → IsAuthorized d request reading authorization s e
      → stored_operation_result request.unsigned.operation_id e.tables ≡ stored
      → Answers (IsAnswered d request reading s) (
          sign_authorized d request.unsigned
            (recovered authorization stored)
            (record s { engine = e }))
  unfolding sign_authorized recovered
  sign_authorized-Answers new_operation e stored a found =
      Answers-mono _ (λ r s' m. was_made m) (sign_now-Answers new_operation e a (inl refl))
  sign_authorized-Answers same_operation_retry e none a found =
      Answers-mono _ (λ r s' m. was_made m) (sign_now-Answers same_operation_retry e a (inr found))
  sign_authorized-Answers same_operation_retry e (some bytes) a found =
      last-Answers _ _ λ result parsed. was_recalled (record {
        bytes = bytes;
        authorized = a;
        stored = found;
        parsed = parsed-of _ _ result parsed;
        unasked = refl;
      })

  sign-Answers : Answers (IsAnswered d request reading s) (sign d request reading s)
  unfolding sign
  sign-Answers = read-Answers _ s _ λ required by_terms.
      engine-Answers _ s _ λ clock observed read_clock.
        engine-Answers _ (record s { engine = observed }) _
          λ authorization e authorized.
            read-Answers _ (record s { engine = e }) _
              λ stored found.
                sign_authorized-Answers authorization e stored
                  (record {
                    required = required;
                    clock = clock;
                    observed = observed;
                    by_terms = by_terms;
                    read_clock = read_clock;
                    authorized = authorized;
                  })
                  (same_ok _ stored found)
    where
      same_ok : (a b : Option (List ℕ)) → ok a ≡ ok b → a ≡ b
      same_ok a b h = cc

  pub sign-IsAnswered :
      (result : SigningResult) (s' : Service)
      → sign d request reading s ≡ (ok result, s')
      → IsAnswered d request reading s result s'
  sign-IsAnswered result s' e =
      subst (AnswerOf (IsAnswered d request reading s)) e sign-Answers.holds
