-- ===== src/Service/Collected.antt =====
-- What the loop of `sign` (crates/bloom-signer/src/service.rs) sends and collects: the inputs of a
-- request, the calls of the backend for them, and the signatures that answer them.
use bloom_signer.Prelude.{
  ℕ, suc, ◌+◌, true, List, [], ◌∷◌, ◌++◌, some, map, ◌≡◌, refl, sym, ap, subst, ◌∙◌, length, arith,
}
use bloom_signer.Signing.Request.{
  CryptoSuite, secp256k1_keccak256_recoverable, secp256k1_sha256_recoverable, ed25519_message,
  Hashes, UnsignedSignRequest, messages_are_bound,
}
use bloom_signer.Service.Types.{
  input_kind, digest32_kind, message_kind, CryptoInputKind, signature_encoding, BackendInput,
  digest32_input, message_input, BackendSignature, BackendCall, signed, NormalizedSignature,
  Backend,
}
use bloom_signer.Service.Sign.{ServiceDeps, message_at, input_of, backend_request, backend_call}

-- The inputs of a request: its hashes for a suite that signs digests, its messages for one that signs
-- messages.
unfoldable pub inputs_of : CryptoInputKind → UnsignedSignRequest → List BackendInput
inputs_of digest32_kind u = map digest32_input u.ordered_hashes
inputs_of message_kind u = map message_input u.ordered_messages

-- The calls of a backend for the inputs, from an index on.
unfoldable pub asks : ServiceDeps → UnsignedSignRequest → ℕ → List BackendInput → List BackendCall
asks d u index [] = []
asks d u index (input ∷ inputs) =
    backend_call u index (backend_request d u index input) ∷ asks d u (suc index) inputs

-- The signatures are the backend's answers to the calls for the inputs, in their order, each of the
-- request's suite and its encoding.
abbrev pub Collected :
    ServiceDeps
    → UnsignedSignRequest
    → Backend
    → List BackendCall
    → ℕ
    → List BackendInput
    → List NormalizedSignature
    → Type 0
Collected d u backend calls index [] [] = Unit
Collected d u backend calls index [] (made ∷ rest) = ⊥
Collected d u backend calls index (input ∷ inputs) [] = ⊥
Collected d u backend calls index (input ∷ inputs) (made ∷ rest) =
    (signature : BackendSignature) × (backend calls (backend_request d u index input)
      ≡ signed signature)
    × (signature.crypto_suite ≡ u.crypto_suite)
    × (signature.encoding ≡ signature_encoding u.crypto_suite)
    × (made ≡ record { crypto_suite = u.crypto_suite; bytes = signature.bytes })
    × Collected d u backend (calls ++ backend_call u index (backend_request d u index input) ∷ [])
        (suc index) inputs rest

-- The loop finds these inputs at the hashes.
abbrev pub Feeds : UnsignedSignRequest → ℕ → List ℕ → List BackendInput → Type 0
Feeds u index [] [] = Unit
Feeds u index [] (input ∷ inputs) = ⊥
Feeds u index (hash ∷ hashes) [] = ⊥
Feeds u index (hash ∷ hashes) (input ∷ inputs) =
    (input_of (input_kind u.crypto_suite) u index hash ≡ some input)
    × Feeds u (suc index) hashes inputs

module _ (u : UnsignedSignRequest) where
  digests-Feeds :
      (index : ℕ) (hashes : List ℕ)
      → input_kind u.crypto_suite ≡ digest32_kind
      → Feeds u index hashes (map digest32_input hashes)
  unfolding input_of
  digests-Feeds index [] k = tt
  digests-Feeds index (hash ∷ hashes) k = (rw k refl, digests-Feeds (suc index) hashes k)

  messages-Feeds :
      (index : ℕ) (hashes : List ℕ) (messages : List (List ℕ))
      → input_kind u.crypto_suite ≡ message_kind
      → ((i : ℕ) → message_at u.ordered_messages (i + index) ≡ message_at messages i)
      → length messages ≡ length hashes
      → Feeds u index hashes (map message_input messages)
  unfolding input_of message_at
  messages-Feeds index [] [] k h e = tt
  messages-Feeds index [] (m ∷ messages) k h e = absurd (omega arith)
  messages-Feeds index (hash ∷ hashes) [] k h e = absurd (omega arith)
  messages-Feeds index (hash ∷ hashes) (m ∷ messages) k h e = (
    let zero_more : index ≡ 0 + index = omega arith in
        let here : message_at u.ordered_messages index ≡ some m =
          ap (message_at u.ordered_messages) zero_more ∙ h 0 in
        rw k (rw (here, input_of)),
    messages-Feeds (suc index) hashes messages k
        (λ i.
          let shift : i + suc index ≡ suc i + index = omega arith in
          ap (message_at u.ordered_messages) shift ∙ h (suc i))
        (omega arith),
  )

  kind-Feeds :
      (kind : CryptoInputKind)
      → input_kind u.crypto_suite ≡ kind
      → Feeds u 0 u.ordered_hashes (inputs_of kind u)
      → Feeds u 0 u.ordered_hashes (inputs_of (input_kind u.crypto_suite) u)
  kind-Feeds kind k h = subst (λ c. Feeds u 0 u.ordered_hashes (inputs_of c u)) (sym k) h

  bound-length :
      (hashes : Hashes)
      → messages_are_bound hashes ed25519_message u ≡ true
      → length u.ordered_messages ≡ length u.ordered_hashes
  unfolding messages_are_bound
  bound-length hashes h = ground arith

  -- The messages of a request whose shape was checked are enough.
  pub request-Feeds :
      (hashes : Hashes)
      → messages_are_bound hashes u.crypto_suite u ≡ true
      → Feeds u 0 u.ordered_hashes (inputs_of (input_kind u.crypto_suite) u)
  unfolding inputs_of input_kind
  request-Feeds hashes bound = from u.crypto_suite refl bound
    where
      by_digest :
          input_kind u.crypto_suite ≡ digest32_kind
          → Feeds u 0 u.ordered_hashes (inputs_of (input_kind u.crypto_suite) u)
      by_digest k = kind-Feeds digest32_kind k (digests-Feeds 0 u.ordered_hashes k)

      by_message :
          input_kind u.crypto_suite ≡ message_kind
          → length u.ordered_messages ≡ length u.ordered_hashes
          → Feeds u 0 u.ordered_hashes (inputs_of (input_kind u.crypto_suite) u)
      by_message k e = kind-Feeds message_kind k (
          messages-Feeds 0 u.ordered_hashes u.ordered_messages k
            (λ i. ap (message_at u.ordered_messages) (omega arith)) e)

      from :
          (suite : CryptoSuite)
          → u.crypto_suite ≡ suite
          → messages_are_bound hashes suite u ≡ true
          → Feeds u 0 u.ordered_hashes (inputs_of (input_kind u.crypto_suite) u)
      from secp256k1_keccak256_recoverable e b = by_digest (ap input_kind e)
      from secp256k1_sha256_recoverable e b = by_digest (ap input_kind e)
      from ed25519_message e b = by_message (ap input_kind e) (bound-length hashes b)
