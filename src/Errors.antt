-- ===== src/Errors.antt =====
-- The wire form of protocol errors and their contract (crates/bloom-signer-api/src/error.rs).
pub mod Laws
mod Tests
use bloom_signer.Prelude.{
  Bool, true, false, ◌&&◌, ℕ, List, [], ◌∷◌, Option, none, some, ◌≡◌, refl, sym, ◌∙◌, find?,
  bytes_eq, bytes_eq→eq, if◌then◌else◌, Bool-cases, inl, inr, arith, Bool-cases,
}
use bloom_signer.Prelude.Rows.{find?-test}
use bloom_signer.Prelude.Result.{
  ProtocolErrorCode, unauthenticated_peer, unsupported_version, malformed_frame,
  limit_exceeded_frame, unknown_field, unknown_method, operation_id_conflict, approval_not_found,
  approval_expired, approval_revoked, approval_rearm_required, revocation_epoch_unreconciled,
  selector_mismatch, suite_not_allowed, keyref_mismatch, limit_exceeded_operations,
  limit_exceeded_signatures, limit_exceeded_value, limit_exceeded_rate, signer_rate_backstop_denied,
  claim_invalid, assurance_unavailable, provenance_mismatch, policy_baseline_stale,
  ceremony_rate_limited, ceremony_replay, ceremony_kind_mismatch, quota_exceeded, clock_untrusted,
  clock_rollback, backend_unsupported, backend_invalid_request, ambiguous_provider_effect,
  service_unavailable,
}
use bloom_signer.Registry.Path.{codes}

pub data RetryClass : Type 0 where
  never same_operation after_reconciliation after_backoff after_reread : RetryClass
  after_repair user_action : RetryClass

pub data DurableEffect : Type 0 where
  no_effect prior_operation_stands reservation_released possible_provider_effect : DurableEffect
  unknown_resolve_by_status : DurableEffect

unfoldable pub retry_eq : RetryClass → RetryClass → Bool
retry_eq never never = true
retry_eq same_operation same_operation = true
retry_eq after_reconciliation after_reconciliation = true
retry_eq after_backoff after_backoff = true
retry_eq after_reread after_reread = true
retry_eq after_repair after_repair = true
retry_eq user_action user_action = true
retry_eq _ _ = false

unfoldable pub effect_eq : DurableEffect → DurableEffect → Bool
effect_eq no_effect no_effect = true
effect_eq prior_operation_stands prior_operation_stands = true
effect_eq reservation_released reservation_released = true
effect_eq possible_provider_effect possible_provider_effect = true
effect_eq unknown_resolve_by_status unknown_resolve_by_status = true
effect_eq _ _ = false

-- `ProtocolErrorCode::ALL`
abbrev pub all_codes : List ProtocolErrorCode
all_codes =
    unauthenticated_peer ∷ unsupported_version ∷ malformed_frame ∷ limit_exceeded_frame
    ∷ unknown_field ∷ unknown_method ∷ operation_id_conflict ∷ approval_not_found ∷ approval_expired
    ∷ approval_revoked ∷ approval_rearm_required ∷ revocation_epoch_unreconciled ∷ selector_mismatch
    ∷ suite_not_allowed ∷ keyref_mismatch ∷ limit_exceeded_operations ∷ limit_exceeded_signatures
    ∷ limit_exceeded_value ∷ limit_exceeded_rate ∷ signer_rate_backstop_denied ∷ claim_invalid
    ∷ assurance_unavailable ∷ provenance_mismatch ∷ policy_baseline_stale ∷ ceremony_rate_limited
    ∷ ceremony_replay ∷ ceremony_kind_mismatch ∷ quota_exceeded ∷ clock_untrusted ∷ clock_rollback
    ∷ backend_unsupported ∷ backend_invalid_request ∷ ambiguous_provider_effect
    ∷ service_unavailable ∷ []

-- `as_str`
unfoldable pub as_str : ProtocolErrorCode → List ℕ
as_str unauthenticated_peer = codes "UNAUTHENTICATED_PEER"
as_str unsupported_version = codes "UNSUPPORTED_VERSION"
as_str malformed_frame = codes "MALFORMED_FRAME"
as_str limit_exceeded_frame = codes "LIMIT_EXCEEDED_FRAME"
as_str unknown_field = codes "UNKNOWN_FIELD"
as_str unknown_method = codes "UNKNOWN_METHOD"
as_str operation_id_conflict = codes "OPERATION_ID_CONFLICT"
as_str approval_not_found = codes "APPROVAL_NOT_FOUND"
as_str approval_expired = codes "APPROVAL_EXPIRED"
as_str approval_revoked = codes "APPROVAL_REVOKED"
as_str approval_rearm_required = codes "APPROVAL_REARM_REQUIRED"
as_str revocation_epoch_unreconciled = codes "REVOCATION_EPOCH_UNRECONCILED"
as_str selector_mismatch = codes "SELECTOR_MISMATCH"
as_str suite_not_allowed = codes "SUITE_NOT_ALLOWED"
as_str keyref_mismatch = codes "KEYREF_MISMATCH"
as_str limit_exceeded_operations = codes "LIMIT_EXCEEDED_OPERATIONS"
as_str limit_exceeded_signatures = codes "LIMIT_EXCEEDED_SIGNATURES"
as_str limit_exceeded_value = codes "LIMIT_EXCEEDED_VALUE"
as_str limit_exceeded_rate = codes "LIMIT_EXCEEDED_RATE"
as_str signer_rate_backstop_denied = codes "SIGNER_RATE_BACKSTOP_DENIED"
as_str claim_invalid = codes "CLAIM_INVALID"
as_str assurance_unavailable = codes "ASSURANCE_UNAVAILABLE"
as_str provenance_mismatch = codes "PROVENANCE_MISMATCH"
as_str policy_baseline_stale = codes "POLICY_BASELINE_STALE"
as_str ceremony_rate_limited = codes "CEREMONY_RATE_LIMITED"
as_str ceremony_replay = codes "CEREMONY_REPLAY"
as_str ceremony_kind_mismatch = codes "CEREMONY_KIND_MISMATCH"
as_str quota_exceeded = codes "QUOTA_EXCEEDED"
as_str clock_untrusted = codes "CLOCK_UNTRUSTED"
as_str clock_rollback = codes "CLOCK_ROLLBACK"
as_str backend_unsupported = codes "BACKEND_UNSUPPORTED"
as_str backend_invalid_request = codes "BACKEND_INVALID_REQUEST"
as_str ambiguous_provider_effect = codes "AMBIGUOUS_PROVIDER_EFFECT"
as_str service_unavailable = codes "SERVICE_UNAVAILABLE"

unfoldable pub is_named : List ℕ → ProtocolErrorCode → Bool
is_named value code = bytes_eq (as_str code) value

-- `from_str`: the first code of all that has the text.
unfoldable pub from_str : List ℕ → Option ProtocolErrorCode
from_str value = find? (is_named value) all_codes

pub record ErrorContract : Type 0 where
  pub retry : RetryClass
  pub durable_effect : DurableEffect

-- `contract`
unfoldable pub contract : ProtocolErrorCode → ErrorContract
contract operation_id_conflict = record { retry = never; durable_effect = prior_operation_stands }
contract approval_rearm_required = record { retry = user_action; durable_effect = no_effect }
contract revocation_epoch_unreconciled = record {
  retry = after_reconciliation;
  durable_effect = no_effect;
}
contract limit_exceeded_operations = record { retry = never; durable_effect = reservation_released }
contract limit_exceeded_signatures = record { retry = never; durable_effect = reservation_released }
contract limit_exceeded_value = record { retry = never; durable_effect = reservation_released }
contract limit_exceeded_rate = record { retry = never; durable_effect = reservation_released }
contract signer_rate_backstop_denied = record {
  retry = never;
  durable_effect = reservation_released;
}
contract policy_baseline_stale = record { retry = after_reread; durable_effect = no_effect }
contract ceremony_rate_limited = record { retry = after_backoff; durable_effect = no_effect }
contract quota_exceeded = record { retry = after_backoff; durable_effect = no_effect }
contract clock_untrusted = record { retry = after_repair; durable_effect = no_effect }
contract clock_rollback = record { retry = after_repair; durable_effect = no_effect }
contract ambiguous_provider_effect = record {
  retry = never;
  durable_effect = possible_provider_effect;
}
contract service_unavailable = record {
  retry = same_operation;
  durable_effect = unknown_resolve_by_status;
}
contract _ = record { retry = never; durable_effect = no_effect }

pub record ProtocolError : Type 0 where
  pub code : ProtocolErrorCode
  pub retry : RetryClass
  pub durable_effect : DurableEffect
  pub message : List ℕ

-- `ProtocolError::new`
unfoldable pub new_error : ProtocolErrorCode → List ℕ → ProtocolError
new_error code message = record {
  code = code;
  retry = (contract code).retry;
  durable_effect = (contract code).durable_effect;
  message = message;
}

-- The fields on the wire.
pub record WireError : Type 0 where
  pub code : List ℕ
  pub retry : RetryClass
  pub durable_effect : DurableEffect
  pub message : List ℕ

-- `serialize`: the derived one, with the code as its text.
unfoldable pub to_wire : ProtocolError → WireError
to_wire e = record {
  code = as_str e.code;
  retry = e.retry;
  durable_effect = e.durable_effect;
  message = e.message;
}

unfoldable pub checked_error : WireError → Option ProtocolErrorCode → Option ProtocolError
checked_error wire none = none
checked_error wire (some code) =
    if retry_eq wire.retry (contract code).retry
      && effect_eq wire.durable_effect (contract code).durable_effect
    then some (record {
      code = code;
      retry = wire.retry;
      durable_effect = wire.durable_effect;
      message = wire.message;
    })
    else none

-- `deserialize`: a contract other than the code's is forged.
unfoldable pub from_wire : WireError → Option ProtocolError
from_wire wire = checked_error wire (from_str wire.code)
