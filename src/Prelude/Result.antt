-- ===== src/Prelude/Result.antt =====
-- The closed registry of protocol error codes (crates/bloom-signer-api/src/error.rs) and fallible
-- results. The message text of an error is left out; no decision reads it. `panic` is a Rust panic.
use mathlib.Core.Path.{◌≡◌, refl}
use native.Mathlib.Omega.{arith}
use mathlib.Core.Bool.{Bool, true, false}
use mathlib.Core.Option.{Option, none, some}

-- `ProtocolErrorCode`
pub data ProtocolErrorCode : Type 0 where
  unauthenticated_peer unsupported_version malformed_frame limit_exceeded_frame : ProtocolErrorCode
  unknown_field unknown_method operation_id_conflict approval_not_found : ProtocolErrorCode
  approval_expired approval_revoked approval_rearm_required : ProtocolErrorCode
  revocation_epoch_unreconciled selector_mismatch suite_not_allowed : ProtocolErrorCode
  keyref_mismatch limit_exceeded_operations limit_exceeded_signatures : ProtocolErrorCode
  limit_exceeded_value limit_exceeded_rate signer_rate_backstop_denied : ProtocolErrorCode
  claim_invalid assurance_unavailable provenance_mismatch : ProtocolErrorCode
  policy_baseline_stale ceremony_rate_limited ceremony_replay : ProtocolErrorCode
  ceremony_kind_mismatch quota_exceeded clock_untrusted clock_rollback : ProtocolErrorCode
  backend_unsupported backend_invalid_request ambiguous_provider_effect : ProtocolErrorCode
  service_unavailable : ProtocolErrorCode

-- `Result<A, ProtocolError>`
pub data Result {ℓ} (A : Type ℓ) : Type ℓ where
  ok : A → Result A
  err : ProtocolErrorCode → Result A
  panic : Result A

infixl 5 ◌>>=◌ ◌>>◌
abbrev pub ◌>>=◌ {ℓ κ} : {A : Type ℓ} {B : Type κ} → Result A → (A → Result B) → Result B
ok a >>= f = f a
err e >>= f = err e
panic >>= f = panic

abbrev pub ◌>>◌ {ℓ} : {B : Type ℓ} → Result (Unit {0}) → Result B → Result B
m >> k = m >>= λ _. k

-- An early `return Err(e)` unless the test holds.
abbrev pub guard : Bool → ProtocolErrorCode → Result (Unit {0})
guard true e = ok tt
guard false e = err e

-- An early `return Err(e)` if the test holds.
abbrev pub reject_if : Bool → ProtocolErrorCode → Result (Unit {0})
reject_if true e = err e
reject_if false e = ok tt

-- `Option::ok_or`
abbrev pub ok_or {ℓ} : {A : Type ℓ} → Option A → ProtocolErrorCode → Result A
ok_or none e = err e
ok_or (some a) e = ok a

-- A sequence that returned `Ok`.
pub >>=-ok {ℓ κ} :
    {A : Type ℓ} {B : Type κ} (m : Result A) (f : A → Result B) (b : B)
    → (m >>= f) ≡ ok b
    → (a : A) × (m ≡ ok a) × (f a ≡ ok b)
>>=-ok (ok a) f b h = (a, refl, h)
>>=-ok (err e) f b h = ground arith
>>=-ok panic f b h = ground arith
