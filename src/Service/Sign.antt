-- ===== src/Service/Sign.antt =====
-- `sign` of crates/bloom-signer/src/service.rs, with `approval_requires_trusted_time` of
-- crates/bloom-signer/src/engine.rs and `SignerClock::observe` of crates/bloom-signer/src/clock.rs.
use bloom_signer.Prelude.{
  ℕ, zero, suc, ◌%◌, ◌^◌, Bool, true, false, ◌&&◌, ◌||◌, not, List, [], ◌∷◌, ◌++◌, Option, none,
  some, any, find?, if◌then◌else◌,
}
use bloom_signer.Prelude.Result.{
  Result, ok, err, panic, ProtocolErrorCode, ok_or, ◌>>=◌ as ◌>>>=◌, approval_not_found,
  malformed_frame, clock_untrusted, ambiguous_provider_effect,
}
use bloom_signer.Prelude.Action.{Action, ◌>>=◌, ◌>>◌, pure, read}
use bloom_signer.Registry.Path.{codes}
use bloom_signer.Signing.Request.{UnsignedSignRequest, SignRequest, suite_eq}
use bloom_signer.Signing.Terms.{ValueLimit}
use bloom_signer.Signing.State.{
  healthy, SignAuthorization, new_operation, same_operation_retry, SignerOperationEffect,
  committed_effect, released_effect, quarantined_effect, PlatformTimeReading, Tables, Engine, Deps,
  ClockDecision, is_approval,
}
use bloom_signer.Signing.Petal.{is_empty}
use bloom_signer.Signing.Authorize.{authorize_sign}
use bloom_signer.Signing.Effects.{
  mark_operation_dispatched, commit_operation_result, finalize_operation, stored_operation_result,
}
use bloom_signer.Signing.Clock.{observe_time}
use bloom_signer.Service.Types.{
  digest32_kind, message_kind, input_kind, signature_encoding, encoding_eq, CryptoInputKind,
  BackendInput, digest32_input, message_input, BackendSignRequest, BackendSignature, BackendError,
  definitive_rejected, retryable_before_acceptance, unsupported, invalid_request,
  indeterminate_acceptance, BackendReply, signed, failed, map_backend_error, NormalizedSignature,
  SigningResult, Receipt, BackendCall, Backend,
}

-- What the service is given besides the engine: the kind and the boot epoch of its clock with the
-- compiled step, its own boot epoch, the bytes of the wire types, the backends and the JSON texts.
pub record ServiceDeps : Type 0 where
  pub engine : Deps
  pub durable_clock_guard : Bool
  pub clock_boot_epoch : ℕ
  pub max_forward_step_ms : ℕ
  pub boot_epoch : ℕ
  pub digest_bytes : ℕ → List ℕ
  pub epoch_bytes : ℕ → List ℕ
  pub u32_bytes : ℕ → List ℕ
  pub get_backend : ℕ → ℕ → Result Backend
  pub receipt_jcs : Receipt → Result (List ℕ)
  pub result_jcs : SigningResult → Result (List ℕ)
  pub parse_result : List ℕ → Option SigningResult

-- The engine, and the calls of backends so far.
pub record Service : Type 0 where
  pub engine : Engine
  pub calls : List BackendCall

abbrev pub on_engine : {A : Type 0} → (Engine → Result A × Engine) → Action Service A
on_engine f s = let o = f s.engine in (o.0, record s { engine = o.1 })

unfoldable pub has_windows : ValueLimit → Bool
has_windows limit = not (is_empty limit.rolling_windows)

-- `approval_requires_trusted_time`
unfoldable pub approval_requires_trusted_time : ℕ → Tables → Result Bool
approval_requires_trusted_time approval t =
    ok_or (find? (is_approval approval) t.approvals) approval_not_found >>>= λ row.
    ok_or row.terms malformed_frame >>>= λ terms. ok (
      not (is_empty terms.limits.operation_rate_limits)
      || not (is_empty terms.limits.signature_rate_limits)
      || any has_windows terms.limits.value_limits)

-- `host_wall_clock_decision`
unfoldable pub host_wall_clock_decision : PlatformTimeReading → ℕ → Result ClockDecision
host_wall_clock_decision reading boot_epoch = ok_or reading.utc_ms clock_untrusted >>>= λ utc_ms.
    ok (record {
      effective_now_ms = utc_ms;
      condition = healthy;
      observed_utc_ms = some utc_ms;
      monotonic_anchor_ns = reading.monotonic_anchor_ns;
      boot_epoch = boot_epoch;
    })

-- `SignerClock::observe` of a sampled reading.
unfoldable pub observe_reading :
    ServiceDeps → Bool → Bool → PlatformTimeReading → Engine → Result ClockDecision × Engine
observe_reading d false rate_limited reading s =
    (host_wall_clock_decision reading d.clock_boot_epoch, s)
observe_reading d true rate_limited reading s =
    observe_time d.engine reading d.clock_boot_epoch d.max_forward_step_ms rate_limited s

-- `SignerClock::observe`: the sampler may fail.
unfoldable pub observe_clock :
    ServiceDeps → Bool → Option PlatformTimeReading → Engine → Result ClockDecision × Engine
observe_clock d rate_limited none s = (err clock_untrusted, s)
observe_clock d rate_limited (some reading) s =
    observe_reading d d.durable_clock_guard rate_limited reading s

-- `provider_attempt_id`
unfoldable pub provider_attempt_id : ServiceDeps → ℕ → ℕ → ℕ
provider_attempt_id d operation_digest child_index = d.engine.hashes.sha256 (
    codes "bloom-provider-attempt/v1"
    ++ d.digest_bytes operation_digest
    ++ d.epoch_bytes d.boot_epoch
    ++ d.u32_bytes (child_index % 2 ^ 32))

unfoldable pub provider_attempt_ids : ServiceDeps → ℕ → ℕ → List ℕ → List ℕ
provider_attempt_ids d operation_digest index [] = []
provider_attempt_ids d operation_digest index (hash ∷ hashes) =
    provider_attempt_id d operation_digest index
    ∷ provider_attempt_ids d operation_digest (suc index) hashes

unfoldable pub message_at : List (List ℕ) → ℕ → Option (List ℕ)
message_at [] index = none
message_at (message ∷ messages) zero = some message
message_at (message ∷ messages) (suc index) = message_at messages index

-- The input of a hash. An index past the messages is a panic.
unfoldable pub input_of : CryptoInputKind → UnsignedSignRequest → ℕ → ℕ → Option BackendInput
input_of digest32_kind u index hash = some (digest32_input hash)
input_of message_kind u index hash = elim (message_at u.ordered_messages index) [
  | none ↦ none
  | some m ↦ some (message_input m)
]

-- The effect of a backend error: only a first error that proves that nothing was signed releases.
unfoldable pub is_definitive : BackendError → Bool
is_definitive definitive_rejected = true
is_definitive retryable_before_acceptance = true
is_definitive unsupported = true
is_definitive invalid_request = true
is_definitive indeterminate_acceptance = false

unfoldable pub failure_effect : List NormalizedSignature → BackendError → SignerOperationEffect
failure_effect [] error = if is_definitive error then released_effect else quarantined_effect
failure_effect (signature ∷ signatures) error = quarantined_effect

unfoldable pub failure_code : SignerOperationEffect → BackendError → ProtocolErrorCode
failure_code quarantined_effect error = ambiguous_provider_effect
failure_code released_effect error = map_backend_error error
failure_code committed_effect error = map_backend_error error

-- `finalize_operation`, then the error.
unfoldable pub finalize_with :
    {A : Type 0} → ServiceDeps → ℕ → SignerOperationEffect → ProtocolErrorCode → Action Service A
finalize_with d operation effect code = do
  on_engine (finalize_operation d.engine operation effect)
  read (λ _. err code)

-- The suite and the encoding of what the backend returned.
abbrev pub is_of_suite : UnsignedSignRequest → BackendSignature → Bool
is_of_suite u signature =
    suite_eq signature.crypto_suite u.crypto_suite
    && encoding_eq signature.encoding (signature_encoding u.crypto_suite)

unfoldable pub check_signature :
    ServiceDeps → UnsignedSignRequest → BackendSignature → Bool → Action Service NormalizedSignature
check_signature d u signature true =
    pure (record { crypto_suite = signature.crypto_suite; bytes = signature.bytes })
check_signature d u signature false =
    finalize_with d u.operation_id quarantined_effect ambiguous_provider_effect

unfoldable pub after_reply :
    ServiceDeps
    → UnsignedSignRequest
    → List NormalizedSignature
    → BackendReply
    → Action Service NormalizedSignature
after_reply d u signatures (failed error) =
    let effect = failure_effect signatures error in
    finalize_with d u.operation_id effect (failure_code effect error)
after_reply d u signatures (signed signature) =
    check_signature d u signature (is_of_suite u signature)

abbrev pub backend_request :
    ServiceDeps → UnsignedSignRequest → ℕ → BackendInput → BackendSignRequest
backend_request d u index input = record {
  provider_attempt_id = provider_attempt_id d u.operation_digest index;
  key_ref = u.key_ref;
  crypto_suite = u.crypto_suite;
  input = input;
  deadline_ms = u.expires_at_ms;
}

abbrev pub backend_call : UnsignedSignRequest → ℕ → BackendSignRequest → BackendCall
backend_call u index request = record {
  operation_id = u.operation_id;
  child_index = index;
  request = request;
}

-- One call of the backend, and its answer.
unfoldable pub call_backend :
    ServiceDeps
    → UnsignedSignRequest
    → Backend
    → ℕ
    → List NormalizedSignature
    → Option BackendInput
    → Action Service NormalizedSignature
call_backend d u backend index signatures none s = (panic, s)
call_backend d u backend index signatures (some input) s =
    let request = backend_request d u index input in
    after_reply d u signatures (backend s.calls request)
      (record s { calls = s.calls ++ backend_call u index request ∷ [] })

-- The loop over the hashes.
unfoldable pub sign_hashes :
    ServiceDeps
    → UnsignedSignRequest
    → Backend
    → ℕ
    → List ℕ
    → List NormalizedSignature
    → Action Service (List NormalizedSignature)
sign_hashes d u backend index [] signatures = pure signatures
sign_hashes d u backend index (hash ∷ hashes) signatures = do
  signature ←
      call_backend d u backend index signatures (input_of (input_kind u.crypto_suite) u index hash)
  sign_hashes d u backend (suc index) hashes (signatures ++ signature ∷ [])

-- `signer_receipt_digest`
unfoldable pub signer_receipt_digest :
    ServiceDeps → UnsignedSignRequest → List NormalizedSignature → Result ℕ
signer_receipt_digest d u signatures =
    d.receipt_jcs (record {
      operation_id = u.operation_id;
      operation_digest = u.operation_digest;
      signatures = signatures;
      validation_receipt_digest = u.validation_receipt_digest;
    })
    >>>= λ jcs. ok (d.engine.hashes.sha256 (codes "bloom-signer-signing-receipt/v1" ++ jcs))

-- What follows the look at the stored result: the dispatch, the backend calls and the commit.
unfoldable pub sign_now : ServiceDeps → UnsignedSignRequest → Action Service SigningResult
sign_now d u = do
  on_engine (
      mark_operation_dispatched d.engine u.operation_id u.key_ref
        (provider_attempt_ids d u.operation_digest 0 u.ordered_hashes))
  backend ← read (λ _. d.get_backend u.key_ref.backend u.key_ref.backend_instance)
  signatures ← sign_hashes d u backend 0 u.ordered_hashes []
  receipt ← read (λ _. signer_receipt_digest d u signatures)
  let result : SigningResult = record {
    operation_id = u.operation_id;
    operation_digest = u.operation_digest;
    signatures = signatures;
    signer_receipt_digest = receipt;
    broker_receipt_digest = u.validation_receipt_digest;
  }
  bytes ← read (λ _. d.result_jcs result)
  on_engine (commit_operation_result d.engine u.operation_id bytes)
  pure result

-- A retry whose result is stored answers with it.
unfoldable pub recovered : SignAuthorization → Option (List ℕ) → Option (List ℕ)
recovered new_operation stored = none
recovered same_operation_retry stored = stored

unfoldable pub sign_authorized :
    ServiceDeps → UnsignedSignRequest → Option (List ℕ) → Action Service SigningResult
sign_authorized d u (some bytes) = read (λ _. ok_or (d.parse_result bytes) malformed_frame)
sign_authorized d u none = sign_now d u

-- `sign`
unfoldable pub sign :
    ServiceDeps → SignRequest → Option PlatformTimeReading → Action Service SigningResult
sign d request reading = do
  trusted_time_required ←
      read (λ s. approval_requires_trusted_time request.unsigned.approval_id s.engine.tables)
  clock ← on_engine (observe_clock d trusted_time_required reading)
  authorization ← on_engine (authorize_sign d.engine request clock)
  stored ← read (λ s. ok (stored_operation_result request.unsigned.operation_id s.engine.tables))
  sign_authorized d request.unsigned (recovered authorization stored)
