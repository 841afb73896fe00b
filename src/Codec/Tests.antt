-- ===== src/Codec/Tests.antt =====
-- The limits of payloads and envelopes at concrete ones.
use bloom_signer.Prelude.{[], ◌∷◌, ◌≡◌, refl, any}
use bloom_signer.Prelude.Result.{ok, err, limit_exceeded_frame}
use bloom_signer.Codec.{
  SigningPayloads, batch, validate_payloads, HpkeEnvelope, validate_envelope, total_length, admits,
  admits_envelope, limit_unless, validate-admits,
}

abbrev two_children : SigningPayloads
two_children = batch ((1 ∷ 2 ∷ []) ∷ [] ∷ [])

abbrev small_envelope : HpkeEnvelope
small_envelope = record { kem_output = 1 ∷ []; ciphertext = 2 ∷ 3 ∷ [] }

-- An empty batch is refused.
empty_batch : validate_payloads (batch []) ≡ err limit_exceeded_frame
unfolding validate_payloads
empty_batch = refl

validate-admits_example :
    (validate_payloads two_children ≡ ok tt) × (validate_envelope small_envelope ≡ ok tt)
unfolding total_length admits admits_envelope limit_unless any
validate-admits_example = validate-admits two_children small_envelope
