-- ===== src/Service/Again.antt =====
-- What a later `sign` (crates/bloom-signer/src/service.rs) answers for an operation that has a result.
use bloom_signer.Prelude.{
  ℕ, List, [], ◌∷◌, Option, none, some, ◌≡◌, ◌≢◌, sym, subst, ◌∙◌, inl, inr, find?,
}
use bloom_signer.Prelude.Result.{ok}
use bloom_signer.Signing.Request.{UnsignedSignRequest, SignRequest}
use bloom_signer.Signing.Terms.{SealedApprovalTerms}
use bloom_signer.Signing.State.{
  SignAuthorization, new_operation, PlatformTimeReading, Engine, is_operation, Approval, Operation,
  Tables,
}
use bloom_signer.Signing.Effects.{stored_operation_result}
use bloom_signer.Signing.Calls.{authorize, dispatch, step, run}
use bloom_signer.Signing.Counted.{IsConsistent}
use bloom_signer.Signing.History.{run-IsConsistent}
use bloom_signer.Signing.Durable.{commit_operation_result-durable}
use bloom_signer.Signing.Stored.{stored-row, stored-durable}
use bloom_signer.Signing.Sound.{IsHandled, same, fresh, authorize_sign-IsSound}
use bloom_signer.Service.Types.{SigningResult}
use bloom_signer.Service.Sign.{ServiceDeps, Service, sign}
use bloom_signer.Service.History.{ServiceCall, sign_call, engine_call, serve, serve_all}
use bloom_signer.Service.Follows.{
  Follows, Follows-refl, Follows-step, Follows-then, observe_clock-Follows, sign-Follows,
}
use bloom_signer.Service.Answered.{
  IsAuthorized, IsAnswered, was_made, was_recalled, sign-IsAnswered,
}

-- A new operation had no row.
handled-new :
    {u : UnsignedSignRequest} {terms : SealedApprovalTerms} {approval : Approval} {binding now : ℕ}
    {t t' : Tables} {a : SignAuthorization}
    → IsHandled u terms approval binding now t t' a
    → a ≡ new_operation
    → find? (is_operation u.operation_id) t.operations ≡ none
handled-new (same row f o p b st ops aps) new = cc
handled-new (fresh found m n ops aps) new = found

module _ (d : ServiceDeps) where
  serve_all-Follows :
      (calls : List ServiceCall) (s : Service)
      → Follows d.engine s.engine (serve_all d calls s).engine
  unfolding serve_all serve
  serve_all-Follows [] s = Follows-refl d.engine s.engine
  serve_all-Follows (sign_call request reading ∷ calls) s =
      Follows-then d.engine s.engine _ _ (sign-Follows d request reading s)
        (serve_all-Follows calls _)
  serve_all-Follows (engine_call call ∷ calls) s =
      Follows-then d.engine s.engine _ _ (Follows-step d.engine call s.engine)
        (serve_all-Follows calls _)

  Follows-IsConsistent :
      (e e' : Engine) → Follows d.engine e e' → IsConsistent e.tables → IsConsistent e'.tables
  Follows-IsConsistent e e' f c =
      subst (λ x. IsConsistent x.tables) (sym f.1) (run-IsConsistent d.engine f.0 e c)

  Follows-stored :
      (operation : ℕ) (bytes : List ℕ) (e e' : Engine)
      → Follows d.engine e e'
      → IsConsistent e.tables
      → stored_operation_result operation e.tables ≡ some bytes
      → stored_operation_result operation e'.tables ≡ some bytes
  Follows-stored operation bytes e e' f c h =
      subst (λ x. stored_operation_result operation x.tables ≡ some bytes) (sym f.1)
        (stored-durable d.engine operation bytes e c h f.0)

  -- The engine in which the request was authorized.
  observed-Follows :
      {request : SignRequest} {reading : Option PlatformTimeReading} {a : SignAuthorization}
      {s : Service} {e : Engine} (w : IsAuthorized d request reading a s e)
      → Follows d.engine s.engine w.observed
  observed-Follows {request} {reading} {a} {s} {e} w =
      subst (λ p. Follows d.engine s.engine p.1) w.read_clock
        (observe_clock-Follows d w.required reading s.engine)

  authorized-Follows :
      {request : SignRequest} {reading : Option PlatformTimeReading} {a : SignAuthorization}
      {s : Service} {e : Engine} (w : IsAuthorized d request reading a s e)
      → Follows d.engine s.engine e
  unfolding step
  authorized-Follows {request} {reading} {a} {s} {e} w =
      Follows-then d.engine s.engine w.observed e (observed-Follows w) (
        subst (λ p. Follows d.engine w.observed p.1) w.authorized
          (Follows-step d.engine (authorize request w.clock) w.observed))

  -- The bytes of an answer are stored when `sign` returns.
  Answered-stored :
      (request : SignRequest) (reading : Option PlatformTimeReading) (s s' : Service)
      (answer : SigningResult)
      → IsConsistent s.engine.tables
      → ((bytes : List ℕ) → d.result_jcs answer ≡ ok bytes → d.parse_result bytes ≡ some answer)
      → IsAnswered d request reading s answer s'
      → (bytes : List ℕ) × (stored_operation_result request.unsigned.operation_id s'.engine.tables
          ≡ some bytes)
        × (d.parse_result bytes ≡ some answer)
  unfolding step run
  Answered-stored request reading s s' answer c reads (was_recalled w) =
      (w.bytes, w.stored, w.parsed)
  Answered-stored request reading s s' answer c reads (was_made w) =
      let u = request.unsigned in
      let before =
        Follows-IsConsistent s.engine w.before_dispatch (authorized-Follows w.authorized) c in
      let marked =
        subst (λ p. Follows d.engine w.before_dispatch p.1) w.dispatch_marked
          (Follows-step d.engine (dispatch u.operation_id u.key_ref _) w.before_dispatch) in
      (
        w.bytes,
        commit_operation_result-durable d.engine u.operation_id w.bytes w.dispatched s'.engine
            (Follows-IsConsistent w.before_dispatch w.dispatched marked before) w.result_committed
            [],
        reads w.bytes w.written,
      )

  -- An operation with a stored result is never new.
  stored-ne-new :
      (request : SignRequest) (reading : Option PlatformTimeReading) (s : Service) (e : Engine)
      (bytes : List ℕ)
      → IsConsistent s.engine.tables
      → stored_operation_result request.unsigned.operation_id s.engine.tables ≡ some bytes
      → (a : SignAuthorization) → IsAuthorized d request reading a s e
      → a ≢ new_operation
  stored-ne-new request reading s e bytes c h a w new =
      let f = observed-Follows w in
      let row =
        stored-row request.unsigned.operation_id bytes w.observed.tables
          (Follows-IsConsistent s.engine w.observed f c)
          (Follows-stored request.unsigned.operation_id bytes s.engine w.observed f c h) in
      let sound = authorize_sign-IsSound d.engine request w.clock w.observed e a w.authorized in
      both (sym (handled-new sound.handled new) ∙ row.1)
    where
      both : {row : Operation} → none ≡ some row → ⊥
      both k = cc

  -- The answer for an operation whose result is stored.
  later_same :
      (later : SignRequest) (reading : Option PlatformTimeReading) (now s'' : Service)
      (answer answer' : SigningResult) (bytes : List ℕ)
      → IsConsistent now.engine.tables
      → d.parse_result bytes ≡ some answer
      → stored_operation_result later.unsigned.operation_id now.engine.tables ≡ some bytes
      → IsAnswered d later reading now answer' s''
      → (answer' ≡ answer) × (s''.calls ≡ now.calls)
  later_same later reading now s'' answer answer' bytes c parsed kept (was_made w) =
      elim w.not_stored [
        | inl new ↦ absurd (
            stored-ne-new later reading now w.before_dispatch bytes c kept w.authorization
              w.authorized new)
        | inr gone ↦ absurd (
            none-ne (
              sym gone
              ∙ Follows-stored later.unsigned.operation_id bytes now.engine w.before_dispatch
                  (authorized-Follows w.authorized) c kept))
      ]
    where
      none-ne : none ≡ some bytes → ⊥
      none-ne k = cc
  later_same later reading now s'' answer answer' bytes c parsed kept (was_recalled w) = (
    unique w.bytes
        (sym w.stored
          ∙ Follows-stored later.unsigned.operation_id bytes now.engine s''.engine
              (authorized-Follows w.authorized) c kept)
        w.parsed,
    w.unasked,
  )
    where
      unique :
          (bytes' : List ℕ)
          → some bytes' ≡ some bytes
          → d.parse_result bytes' ≡ some answer'
          → answer' ≡ answer
      unique bytes' e k = cc

  -- An operation keeps its answer: from consistent tables, once `sign` answered `Ok` with a result whose
  -- JSON text reads back as it, then after any history of `sign` calls and other calls of the engine,
  -- whatever the backends answer, every `sign` for the same operation that answers `Ok` answers this
  -- very result, and calls no backend.
  pub sign-same_result :
      (request later : SignRequest) (reading reading' : Option PlatformTimeReading)
      (s s' s'' : Service) (answer answer' : SigningResult)
      → IsConsistent s.engine.tables
      → ((bytes : List ℕ) → d.result_jcs answer ≡ ok bytes → d.parse_result bytes ≡ some answer)
      → sign d request reading s ≡ (ok answer, s')
      → later.unsigned.operation_id ≡ request.unsigned.operation_id
      → (calls : List ServiceCall)
      → sign d later reading' (serve_all d calls s') ≡ (ok answer', s'')
      → (answer' ≡ answer) × (s''.calls ≡ (serve_all d calls s').calls)
  sign-same_result request later reading reading' s s' s'' answer answer' c reads first own calls
        again =
      let one =
        Answered-stored request reading s s' answer c reads
          (sign-IsAnswered d request reading s answer s' first) in
      let moved =
        subst (λ p. Follows d.engine s.engine p.1.engine) first
          (sign-Follows d request reading s) in
      let c' = Follows-IsConsistent s.engine s'.engine moved c in
      let now = serve_all d calls s' in
      let kept =
        Follows-stored later.unsigned.operation_id one.0 s'.engine now.engine
          (serve_all-Follows calls s') c' (rw own one.1) in
      let c'' = Follows-IsConsistent s'.engine now.engine (serve_all-Follows calls s') c' in
      later_same later reading' now s'' answer answer' one.0 c'' one.2 kept
        (sign-IsAnswered d later reading' now answer' s'' again)
