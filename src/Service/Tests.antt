-- ===== src/Service/Tests.antt =====
-- Runs of `sign` of crates/bloom-signer/src/service.rs at small inputs, and its theorems at inputs that
-- meet their hypotheses.
use bloom_signer.Prelude.{
  ◌≤◌, ◌≡◌, refl, false, List, [], ◌∷◌, none, some, any, find?, count_where, update_where,
}
use bloom_signer.Prelude.Result.{Result, ok, err, service_unavailable, operation_id_conflict}
use bloom_signer.Prelude.Action.{proceed}
use bloom_signer.Signing.Request.{secp256k1_keccak256_recoverable}
use bloom_signer.Signing.State.{PlatformTimeReading, released_effect}
use bloom_signer.Signing.Effects.{stored_operation_result}
use bloom_signer.Signing.Calls.{finalize}
use bloom_signer.Signing.Samples.{
  running, sample_deps, sample_engine, sample_request, sample_engine-IsConsistent, dispatched_once,
}
use bloom_signer.Service.Types.{
  input_kind, digest32_input, signature_encoding, encoding_eq, secp256k1_recoverable65,
  map_backend_error, signed, failed, retryable_before_acceptance, Backend, SigningResult,
  NormalizedSignature,
}
use bloom_signer.Service.Sign.{
  ServiceDeps, Service, has_windows, approval_requires_trusted_time, host_wall_clock_decision,
  observe_reading, observe_clock, provider_attempt_id, provider_attempt_ids, message_at, input_of,
  is_definitive, failure_effect, failure_code, finalize_with, check_signature, after_reply,
  call_backend, sign_hashes, signer_receipt_digest, sign_now, recovered, sign_authorized, sign,
}
use bloom_signer.Service.Collected.{asks, inputs_of, Collected}
use bloom_signer.Service.Again.{sign-same_result}
use bloom_signer.Service.History.{ServiceCall, sign_call, engine_call, serve, serve_all, is_call}
use bloom_signer.Service.Completes.{Signs, sign_hashes-completes}
use bloom_signer.Service.Failures.{IsFailure, sign_hashes-IsFailure}
use bloom_signer.Service.Once.{serve_all-sent_once}

-- All that a run of the service computes with.
serving : Unit {0}
unfolding running proceed any find? count_where update_where input_kind signature_encoding
    encoding_eq map_backend_error has_windows approval_requires_trusted_time
    host_wall_clock_decision observe_reading observe_clock provider_attempt_id provider_attempt_ids
    message_at input_of is_definitive failure_effect failure_code finalize_with check_signature
    after_reply call_backend sign_hashes signer_receipt_digest sign_now recovered sign_authorized
    sign serve serve_all is_call asks inputs_of
serving = tt

abbrev sample_backend : Backend
sample_backend calls request = signed (record {
  crypto_suite = secp256k1_keccak256_recoverable;
  encoding = secp256k1_recoverable65;
  bytes = 3 ∷ [];
  provider_correlation_id = none;
})

abbrev sample_result : SigningResult
sample_result = record {
  operation_id = 20;
  operation_digest = 20;
  signatures = record { crypto_suite = secp256k1_keccak256_recoverable; bytes = 3 ∷ [] } ∷ [];
  signer_receipt_digest = 0;
  broker_receipt_digest = 1;
}

abbrev service_deps : ServiceDeps
service_deps = record {
  engine = sample_deps;
  durable_clock_guard = false;
  clock_boot_epoch = 1;
  max_forward_step_ms = 10;
  boot_epoch = 1;
  digest_bytes = λ digest. digest ∷ [];
  epoch_bytes = λ epoch. epoch ∷ [];
  u32_bytes = λ index. index ∷ [];
  get_backend = λ backend backend_instance. ok sample_backend;
  receipt_jcs = λ receipt. ok [];
  result_jcs = λ result. ok (1 ∷ 2 ∷ []);
  parse_result = λ bytes. some sample_result;
}

-- A backend that accepts nothing.
abbrev refusing_deps : ServiceDeps
refusing_deps = record service_deps {
  get_backend =
      λ backend backend_instance. ok (λ calls request. failed retryable_before_acceptance);
}

abbrev first_service : Service
first_service = record { engine = sample_engine; calls = [] }

abbrev reading : PlatformTimeReading
reading = record { utc_ms = some 500; monotonic_elapsed_ms = 0; monotonic_anchor_ns = 1 }

abbrev signed_once : Service
signed_once = serve service_deps (sign_call (sample_request 20 30) (some reading)) first_service

abbrev refused_once : Service
refused_once = serve refusing_deps (sign_call (sample_request 20 30) (some reading)) first_service

-- A signature is made, stored, and answered again to a retry without another backend call.
sign_results :
    ((sign service_deps (sample_request 20 30) (some reading) first_service).0 ≡ ok sample_result)
    × (stored_operation_result 20 signed_once.engine.tables ≡ some (1 ∷ 2 ∷ []))
    × ((sign service_deps (sample_request 20 31) (some reading) signed_once).0 ≡ ok sample_result)
    × ((serve service_deps (sign_call (sample_request 20 31) (some reading)) signed_once).calls
        ≡ signed_once.calls)
unfolding serving
sign_results = (refl, refl, refl, refl)

-- A backend error before acceptance answers `SERVICE_UNAVAILABLE`, and the retry of the same operation
-- conflicts.
refused_results :
    ((sign refusing_deps (sample_request 20 30) (some reading) first_service).0
      ≡ err service_unavailable)
    × ((sign refusing_deps (sample_request 20 31) (some reading) refused_once).0
        ≡ err operation_id_conflict)
unfolding serving
refused_results = (refl, refl)

abbrev service_history : List ServiceCall
service_history =
    sign_call (sample_request 20 30) (some reading)
    ∷ sign_call (sample_request 20 31) (some reading)
    ∷ engine_call (finalize 20 released_effect)
    ∷ sign_call (sample_request 21 32) (some reading)
    ∷ []

serve_all-sent_once_example :
    count_where (is_call 20 0) (serve_all service_deps service_history first_service).calls ≤ 1
unfolding serving
serve_all-sent_once_example =
    serve_all-sent_once service_deps service_history first_service 20 0 sample_engine-IsConsistent
      refl

sample_backend-Signs : Signs (sample_request 20 30).unsigned sample_backend
unfolding serving
sample_backend-Signs calls request = (_, refl, refl)

sign_hashes-completes_example :
    (made : List NormalizedSignature) × (sign_hashes service_deps
        (sample_request 20 30).unsigned
        sample_backend
        0
        (5 ∷ [])
        []
        first_service
      ≡ (
        ok made,
        record first_service {
          calls = asks service_deps (sample_request 20 30).unsigned 0 (digest32_input 5 ∷ []);
        },
      ))
    × Collected service_deps
        (sample_request 20 30).unsigned
        sample_backend
        []
        0
        (digest32_input 5 ∷ [])
        made
unfolding serving
sign_hashes-completes_example =
    sign_hashes-completes service_deps (sample_request 20 30).unsigned sample_backend refl
      sample_backend-Signs first_service

abbrev refusing_backend : Backend
refusing_backend calls request = failed retryable_before_acceptance

abbrev refused_loop : Result (List NormalizedSignature) × Service
refused_loop =
    sign_hashes service_deps (sample_request 20 30).unsigned refusing_backend 0 (5 ∷ []) []
      (record { engine = dispatched_once; calls = [] })

sign_hashes-IsFailure_example :
    IsFailure service_deps
      (sample_request 20 30).unsigned
      refusing_backend
      (record { engine = dispatched_once; calls = [] })
      (digest32_input 5)
      service_unavailable
      refused_loop.1
unfolding serving
sign_hashes-IsFailure_example =
    sign_hashes-IsFailure service_deps (sample_request 20 30).unsigned refusing_backend
      (record { engine = dispatched_once; calls = [] }) (digest32_input 5) 5 [] refused_loop.1
      service_unavailable refl refl

sign-same_result_example :
    (sample_result ≡ sample_result)
    × ((serve service_deps
          (sign_call (sample_request 20 41) (some reading))
          (serve_all service_deps service_history signed_once)).calls
        ≡ (serve_all service_deps service_history signed_once).calls)
unfolding serving
sign-same_result_example =
    sign-same_result service_deps (sample_request 20 30) (sample_request 20 41) (some reading)
      (some reading) first_service signed_once
      (serve service_deps (sign_call (sample_request 20 41) (some reading))
        (serve_all service_deps service_history signed_once))
      sample_result sample_result sample_engine-IsConsistent (λ bytes e. refl) refl refl
      service_history refl
