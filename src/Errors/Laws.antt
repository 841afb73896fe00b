-- ===== src/Errors/Laws.antt =====
-- The texts of the error codes are a code, and no error on the wire forges its contract
-- (crates/bloom-signer-api/src/error.rs).
use bloom_signer.Prelude.{
  Bool, true, ◌&&◌, ℕ, List, Option, none, some, ◌≡◌, refl, ap, subst, find?, bytes_eq, bytes_eq→eq,
  Bool-cases, inl, inr, arith,
}
use bloom_signer.Prelude.Rows.{find?-test}
use bloom_signer.Prelude.Result.{
  ProtocolErrorCode, unauthenticated_peer, unsupported_version, malformed_frame,
  limit_exceeded_frame, unknown_field, unknown_method, operation_id_conflict, approval_not_found,
  approval_expired, approval_revoked, approval_rearm_required, revocation_epoch_unreconciled,
  selector_mismatch, suite_not_allowed, keyref_mismatch, limit_exceeded_operations,
  limit_exceeded_signatures, limit_exceeded_value, limit_exceeded_rate, signer_rate_backstop_denied,
  claim_invalid, assurance_unavailable, provenance_mismatch, policy_baseline_stale,
  ceremony_rate_limited, ceremony_replay, ceremony_kind_mismatch, quota_exceeded, clock_untrusted,
  clock_rollback, backend_unsupported, backend_invalid_request, ambiguous_provider_effect,
  service_unavailable,
}
use bloom_signer.Errors.{
  RetryClass, never, same_operation, after_reconciliation, after_backoff, after_reread,
  after_repair, user_action, DurableEffect, no_effect, prior_operation_stands, reservation_released,
  possible_provider_effect, unknown_resolve_by_status, retry_eq, effect_eq, as_str, is_named,
  from_str, all_codes, ErrorContract, contract, ProtocolError, new_error, WireError, to_wire,
  checked_error, from_wire,
}

-- Every text is the text of its code.
from_str-as_str : (code : ProtocolErrorCode) → from_str (as_str code) ≡ some code
unfolding from_str as_str is_named find? bytes_eq
from_str-as_str unauthenticated_peer = refl
from_str-as_str unsupported_version = refl
from_str-as_str malformed_frame = refl
from_str-as_str limit_exceeded_frame = refl
from_str-as_str unknown_field = refl
from_str-as_str unknown_method = refl
from_str-as_str operation_id_conflict = refl
from_str-as_str approval_not_found = refl
from_str-as_str approval_expired = refl
from_str-as_str approval_revoked = refl
from_str-as_str approval_rearm_required = refl
from_str-as_str revocation_epoch_unreconciled = refl
from_str-as_str selector_mismatch = refl
from_str-as_str suite_not_allowed = refl
from_str-as_str keyref_mismatch = refl
from_str-as_str limit_exceeded_operations = refl
from_str-as_str limit_exceeded_signatures = refl
from_str-as_str limit_exceeded_value = refl
from_str-as_str limit_exceeded_rate = refl
from_str-as_str signer_rate_backstop_denied = refl
from_str-as_str claim_invalid = refl
from_str-as_str assurance_unavailable = refl
from_str-as_str provenance_mismatch = refl
from_str-as_str policy_baseline_stale = refl
from_str-as_str ceremony_rate_limited = refl
from_str-as_str ceremony_replay = refl
from_str-as_str ceremony_kind_mismatch = refl
from_str-as_str quota_exceeded = refl
from_str-as_str clock_untrusted = refl
from_str-as_str clock_rollback = refl
from_str-as_str backend_unsupported = refl
from_str-as_str backend_invalid_request = refl
from_str-as_str ambiguous_provider_effect = refl
from_str-as_str service_unavailable = refl

named_text :
    (value : List ℕ) (code : ProtocolErrorCode) → is_named value code ≡ true → as_str code ≡ value
unfolding is_named
named_text value code h = bytes_eq→eq (as_str code) value h

retry_eq→eq : (a b : RetryClass) → retry_eq a b ≡ true → a ≡ b
unfolding retry_eq
retry_eq→eq never never h = refl
retry_eq→eq never same_operation h = cc
retry_eq→eq never after_reconciliation h = cc
retry_eq→eq never after_backoff h = cc
retry_eq→eq never after_reread h = cc
retry_eq→eq never after_repair h = cc
retry_eq→eq never user_action h = cc
retry_eq→eq same_operation never h = cc
retry_eq→eq same_operation same_operation h = refl
retry_eq→eq same_operation after_reconciliation h = cc
retry_eq→eq same_operation after_backoff h = cc
retry_eq→eq same_operation after_reread h = cc
retry_eq→eq same_operation after_repair h = cc
retry_eq→eq same_operation user_action h = cc
retry_eq→eq after_reconciliation never h = cc
retry_eq→eq after_reconciliation same_operation h = cc
retry_eq→eq after_reconciliation after_reconciliation h = refl
retry_eq→eq after_reconciliation after_backoff h = cc
retry_eq→eq after_reconciliation after_reread h = cc
retry_eq→eq after_reconciliation after_repair h = cc
retry_eq→eq after_reconciliation user_action h = cc
retry_eq→eq after_backoff never h = cc
retry_eq→eq after_backoff same_operation h = cc
retry_eq→eq after_backoff after_reconciliation h = cc
retry_eq→eq after_backoff after_backoff h = refl
retry_eq→eq after_backoff after_reread h = cc
retry_eq→eq after_backoff after_repair h = cc
retry_eq→eq after_backoff user_action h = cc
retry_eq→eq after_reread never h = cc
retry_eq→eq after_reread same_operation h = cc
retry_eq→eq after_reread after_reconciliation h = cc
retry_eq→eq after_reread after_backoff h = cc
retry_eq→eq after_reread after_reread h = refl
retry_eq→eq after_reread after_repair h = cc
retry_eq→eq after_reread user_action h = cc
retry_eq→eq after_repair never h = cc
retry_eq→eq after_repair same_operation h = cc
retry_eq→eq after_repair after_reconciliation h = cc
retry_eq→eq after_repair after_backoff h = cc
retry_eq→eq after_repair after_reread h = cc
retry_eq→eq after_repair after_repair h = refl
retry_eq→eq after_repair user_action h = cc
retry_eq→eq user_action never h = cc
retry_eq→eq user_action same_operation h = cc
retry_eq→eq user_action after_reconciliation h = cc
retry_eq→eq user_action after_backoff h = cc
retry_eq→eq user_action after_reread h = cc
retry_eq→eq user_action after_repair h = cc
retry_eq→eq user_action user_action h = refl

effect_eq→eq : (a b : DurableEffect) → effect_eq a b ≡ true → a ≡ b
unfolding effect_eq
effect_eq→eq no_effect no_effect h = refl
effect_eq→eq no_effect prior_operation_stands h = cc
effect_eq→eq no_effect reservation_released h = cc
effect_eq→eq no_effect possible_provider_effect h = cc
effect_eq→eq no_effect unknown_resolve_by_status h = cc
effect_eq→eq prior_operation_stands no_effect h = cc
effect_eq→eq prior_operation_stands prior_operation_stands h = refl
effect_eq→eq prior_operation_stands reservation_released h = cc
effect_eq→eq prior_operation_stands possible_provider_effect h = cc
effect_eq→eq prior_operation_stands unknown_resolve_by_status h = cc
effect_eq→eq reservation_released no_effect h = cc
effect_eq→eq reservation_released prior_operation_stands h = cc
effect_eq→eq reservation_released reservation_released h = refl
effect_eq→eq reservation_released possible_provider_effect h = cc
effect_eq→eq reservation_released unknown_resolve_by_status h = cc
effect_eq→eq possible_provider_effect no_effect h = cc
effect_eq→eq possible_provider_effect prior_operation_stands h = cc
effect_eq→eq possible_provider_effect reservation_released h = cc
effect_eq→eq possible_provider_effect possible_provider_effect h = refl
effect_eq→eq possible_provider_effect unknown_resolve_by_status h = cc
effect_eq→eq unknown_resolve_by_status no_effect h = cc
effect_eq→eq unknown_resolve_by_status prior_operation_stands h = cc
effect_eq→eq unknown_resolve_by_status reservation_released h = cc
effect_eq→eq unknown_resolve_by_status possible_provider_effect h = cc
effect_eq→eq unknown_resolve_by_status unknown_resolve_by_status h = refl

retry_eq_refl : (a : RetryClass) → retry_eq a a ≡ true
unfolding retry_eq
retry_eq_refl never = refl
retry_eq_refl same_operation = refl
retry_eq_refl after_reconciliation = refl
retry_eq_refl after_backoff = refl
retry_eq_refl after_reread = refl
retry_eq_refl after_repair = refl
retry_eq_refl user_action = refl

effect_eq_refl : (a : DurableEffect) → effect_eq a a ≡ true
unfolding effect_eq
effect_eq_refl no_effect = refl
effect_eq_refl prior_operation_stands = refl
effect_eq_refl reservation_released = refl
effect_eq_refl possible_provider_effect = refl
effect_eq_refl unknown_resolve_by_status = refl

own_contract :
    (c : ErrorContract)
    → (retry_eq c.retry c.retry && effect_eq c.durable_effect c.durable_effect) ≡ true
own_contract c = rw (retry_eq_refl c.retry) (rw (effect_eq_refl c.durable_effect) refl)

-- Every error that the program makes survives the wire: for every code and message, the wire form of
-- `ProtocolError::new` reads back as that error, and its code's text reads as the code.
pub from_wire-to_wire :
    (code : ProtocolErrorCode) (message : List ℕ)
    → (from_wire (to_wire (new_error code message)) ≡ some (new_error code message))
      × (from_str (as_str code) ≡ some code)
unfolding from_wire to_wire new_error checked_error
from_wire-to_wire code message =
    (rw (from_str-as_str code) (rw (own_contract (contract code)) refl), from_str-as_str code)

checked_sound :
    (wire : WireError) (found : Option ProtocolErrorCode) (e : ProtocolError)
    → from_str wire.code ≡ found
    → checked_error wire found ≡ some e
    → (to_wire e ≡ wire)
      × (e.retry ≡ (contract e.code).retry)
      × (e.durable_effect ≡ (contract e.code).durable_effect)
unfolding checked_error from_str to_wire
checked_sound wire none e f h = cc
checked_sound wire (some code) e f h = elim (Bool-cases (matches code)) [
  | inl u ↦
      let text = named_text wire.code code (find?-test (is_named wire.code) all_codes code f) in
      let same = some_injective (rw u at h) in
      let r = retry_eq→eq wire.retry (contract code).retry (left_of _ _ u) in
      let d = effect_eq→eq wire.durable_effect (contract code).durable_effect (right_of _ _ u) in
      subst IsFaithful same (faithful code text, r, d)
  | inr u ↦ absurd (none-some (rw u at h))
]
  where
    matches : ProtocolErrorCode → Bool
    matches code =
        retry_eq wire.retry (contract code).retry
        && effect_eq wire.durable_effect (contract code).durable_effect

    IsFaithful : ProtocolError → Type 0
    IsFaithful e =
        (to_wire e ≡ wire)
        × (e.retry ≡ (contract e.code).retry)
        × (e.durable_effect ≡ (contract e.code).durable_effect)

    some_injective : {a b : ProtocolError} → some a ≡ some b → a ≡ b
    some_injective x = cc

    none-some : none ≡ some e → ⊥
    none-some x = cc

    left_of : (a b : Bool) → (a && b) ≡ true → a ≡ true
    left_of a b x = ground arith

    right_of : (a b : Bool) → (a && b) ≡ true → b ≡ true
    right_of a b x = ground arith

    faithful :
        (code : ProtocolErrorCode)
        → as_str code ≡ wire.code
        → to_wire (record {
          code = code;
          retry = wire.retry;
          durable_effect = wire.durable_effect;
          message = wire.message;
        })
          ≡ wire
    faithful code x = ap (λ text. record wire { code = text }) x

-- No forged contract is read: when a wire form reads as an error, the error's wire form is that form,
-- and its retry class and durable effect are those of its code's contract.
pub from_wire_faithful :
    (wire : WireError) (e : ProtocolError)
    → from_wire wire ≡ some e
    → (to_wire e ≡ wire)
      × (e.retry ≡ (contract e.code).retry)
      × (e.durable_effect ≡ (contract e.code).durable_effect)
unfolding from_wire
from_wire_faithful wire e h = checked_sound wire (from_str wire.code) e refl h
