-- ===== src/Codec.antt =====
-- The limits of the decoded payloads and envelopes on the wire
-- (crates/bloom-signer-api/src/codec.rs).
-- A payload is the bytes that `decode` gives, and `usize` has 64 bits.
mod Tests
use bloom_signer.Prelude.{
  ℕ, ◌+◌, ◌*◌, ◌^◌, Bool, ◌&&◌, not, ◌||◌, List, [], ◌∷◌, ltb, leb, ◌==◌, length, any,
  if◌then◌else◌, ◌≡◌, arith,
}
use bloom_signer.Prelude.Result.{Result, ok, err, limit_exceeded_frame, reject_if, ◌>>=◌, ◌>>◌}

abbrev pub single_payload_max_bytes : ℕ
single_payload_max_bytes = 256 * 1024

abbrev pub batch_child_max_bytes : ℕ
batch_child_max_bytes = 64 * 1024

abbrev pub batch_aggregate_max_bytes : ℕ
batch_aggregate_max_bytes = 512 * 1024

abbrev pub batch_child_max_count : ℕ
batch_child_max_count = 32

abbrev pub hpke_envelope_max_bytes : ℕ
hpke_envelope_max_bytes = 4 * 1024

pub data SigningPayloads : Type 0 where
  single : (payload : List ℕ) → SigningPayloads
  batch : (children : List (List ℕ)) → SigningPayloads

-- `checked_add` with the error of this file.
unfoldable pub add_length : ℕ → ℕ → Result ℕ
add_length a n = if ltb (a + n) (2 ^ 64) then ok (a + n) else err limit_exceeded_frame

-- The loop over the children of a batch.
unfoldable pub aggregate_of : ℕ → List (List ℕ) → Result ℕ
aggregate_of aggregate [] = ok aggregate
aggregate_of aggregate (child ∷ children) =
    reject_if (ltb batch_child_max_bytes (length child)) limit_exceeded_frame
    >> (add_length aggregate (length child) >>= λ next. aggregate_of next children)

-- `SigningPayloads::validate`
unfoldable pub validate_payloads : SigningPayloads → Result (Unit {0})
validate_payloads (single payload) =
    reject_if (ltb single_payload_max_bytes (length payload)) limit_exceeded_frame
validate_payloads (batch children) =
    reject_if (length children == 0 || ltb batch_child_max_count (length children))
      limit_exceeded_frame
    >> (aggregate_of 0 children >>= λ aggregate.
        reject_if (ltb batch_aggregate_max_bytes aggregate) limit_exceeded_frame)

pub record HpkeEnvelope : Type 0 where
  pub kem_output : List ℕ
  pub ciphertext : List ℕ

-- `HpkeEnvelope::validate`
unfoldable pub validate_envelope : HpkeEnvelope → Result (Unit {0})
validate_envelope e = add_length (length e.kem_output) (length e.ciphertext) >>= λ total.
    reject_if (ltb hpke_envelope_max_bytes total) limit_exceeded_frame

-- The lengths together, in numbers that do not overflow.
unfoldable pub total_length : List (List ℕ) → ℕ
total_length [] = 0
total_length (child ∷ children) = length child + total_length children

-- What the limits admit, without a loop that stops early or an addition that can fail.
unfoldable pub admits : SigningPayloads → Bool
admits (single payload) = leb (length payload) single_payload_max_bytes
admits (batch children) =
    leb 1 (length children)
    && leb (length children) batch_child_max_count
    && not (any (λ child. ltb batch_child_max_bytes (length child)) children)
    && leb (total_length children) batch_aggregate_max_bytes

unfoldable pub admits_envelope : HpkeEnvelope → Bool
admits_envelope e = leb (length e.kem_output + length e.ciphertext) hpke_envelope_max_bytes

unfoldable pub limit_unless : Bool → Result (Unit {0})
limit_unless b = if b then ok tt else err limit_exceeded_frame

aggregate_of-limit :
    (aggregate : ℕ) (children : List (List ℕ))
    → (aggregate_of aggregate children >>= λ total.
        reject_if (ltb batch_aggregate_max_bytes total) limit_exceeded_frame)
      ≡ limit_unless (
          not (any (λ child. ltb batch_child_max_bytes (length child)) children)
          && leb (aggregate + total_length children) batch_aggregate_max_bytes)
unfolding aggregate_of add_length total_length limit_unless any
aggregate_of-limit aggregate [] = ground arith
aggregate_of-limit aggregate (child ∷ children) =
    let rest = aggregate_of-limit (aggregate + length child) children in ground arith

payloads-limit : (p : SigningPayloads) → validate_payloads p ≡ limit_unless (admits p)
unfolding validate_payloads limit_unless admits
payloads-limit (single payload) = ground arith
payloads-limit (batch children) = let loop = aggregate_of-limit 0 children in ground arith

envelope-limit : (e : HpkeEnvelope) → validate_envelope e ≡ limit_unless (admits_envelope e)
unfolding validate_envelope add_length limit_unless admits_envelope
envelope-limit e = ground arith

-- The two `validate` functions answer `Ok` exactly for what the limits admit, and the error
-- LIMIT_EXCEEDED_FRAME for everything else: a single payload of at most 256 KiB, 1 to 32 children of
-- at most 64 KiB each and 512 KiB together, or an envelope of at most 4 KiB. The sums that stop at
-- an overflow and the loop that stops early answer as sums without bounds do.
pub validate-admits :
    (p : SigningPayloads) (e : HpkeEnvelope)
    → (validate_payloads p ≡ limit_unless (admits p))
      × (validate_envelope e ≡ limit_unless (admits_envelope e))
validate-admits p e = (payloads-limit p, envelope-limit e)
