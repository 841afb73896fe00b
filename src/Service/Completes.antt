-- ===== src/Service/Completes.antt =====
-- The loop of `sign` (crates/bloom-signer/src/service.rs) with a backend that signs.
use bloom_signer.Prelude.{ℕ, suc, true, some, List, [], ◌∷◌, ◌++◌, ◌≡◌, refl, ap, ◌∙◌, arith}
use bloom_signer.Prelude.Result.{ok, Result}
use bloom_signer.Prelude.Action.{proceed}
use bloom_signer.Signing.Request.{UnsignedSignRequest, messages_are_bound}
use bloom_signer.Service.Types.{
  input_kind, BackendInput, SignatureEncoding, signature_encoding, encoding_eq, BackendSignRequest,
  BackendSignature, BackendCall, signed, NormalizedSignature, Backend,
}
use bloom_signer.Service.Collected.{inputs_of, asks, Collected, Feeds, request-Feeds}
use bloom_signer.Signing.Within.{suite_eq→eq}
use bloom_signer.Service.Sign.{
  ServiceDeps, Service, is_of_suite, check_signature, after_reply, backend_request, backend_call,
  call_backend, sign_hashes,
}

-- The backend signs every request for the suite with a signature of the suite.
abbrev pub Signs : UnsignedSignRequest → Backend → Type 0
Signs u backend =
    (calls : List BackendCall) (request : BackendSignRequest)
    → (signature : BackendSignature) × (backend calls request ≡ signed signature)
      × (is_of_suite u signature ≡ true)

pub ++-assoc_one :
    {A : Type 0} (xs : List A) (x : A) (ys : List A) → (xs ++ x ∷ []) ++ ys ≡ xs ++ x ∷ ys
++-assoc_one [] x ys = refl
++-assoc_one (y ∷ xs) x ys = ap (λ zs. y ∷ zs) (++-assoc_one xs x ys)

pub ++-none : {A : Type 0} (xs : List A) → xs ≡ xs ++ []
++-none [] = refl
++-none (x ∷ xs) = ap (λ zs. x ∷ zs) (++-none xs)

-- The normalized form of a signature.
abbrev pub normal : BackendSignature → NormalizedSignature
normal signature = record { crypto_suite = signature.crypto_suite; bytes = signature.bytes }

abbrev pub with_call : ServiceDeps → UnsignedSignRequest → ℕ → BackendInput → Service → Service
with_call d u index input s = record s {
  calls = s.calls ++ backend_call u index (backend_request d u index input) ∷ [];
}

encoding_eq→eq : (a b : SignatureEncoding) → encoding_eq a b ≡ true → a ≡ b
unfolding encoding_eq
encoding_eq→eq a b h = ground arith

same_end :
    (s : Service) {made made' : List NormalizedSignature} {calls calls' : List BackendCall}
    → made ≡ made'
    → calls ≡ calls'
    → ◌≡◌ {A = Result (List NormalizedSignature) × Service}
        (ok made, record s { calls = calls })
        (ok made', record s { calls = calls' })
same_end s a b = rw a (rw b refl)

pub suite-of :
    (u : UnsignedSignRequest) (signature : BackendSignature)
    → is_of_suite u signature ≡ true
    → (signature.crypto_suite ≡ u.crypto_suite)
      × (signature.encoding ≡ signature_encoding u.crypto_suite)
suite-of u signature h = (
  suite_eq→eq signature.crypto_suite u.crypto_suite (ground arith),
  encoding_eq→eq signature.encoding (signature_encoding u.crypto_suite) (ground arith),
)

module _ (d : ServiceDeps) (u : UnsignedSignRequest) (backend : Backend) where
  call_completes :
      (index : ℕ) (input : BackendInput) (signatures : List NormalizedSignature) (s : Service)
      (signature : BackendSignature)
      → backend s.calls (backend_request d u index input) ≡ signed signature
      → is_of_suite u signature ≡ true
      → call_backend d u backend index signatures (some input) s
        ≡ (ok (normal signature), with_call d u index input s)
  unfolding call_backend after_reply check_signature
  call_completes index input signatures s signature e good = rw e (rw good refl)

  loop_completes :
      Signs u backend
      → (index : ℕ) (hashes : List ℕ) (inputs : List BackendInput)
        (signatures : List NormalizedSignature) (s : Service)
      → Feeds u index hashes inputs
      → (made : List NormalizedSignature) × (sign_hashes d u backend index hashes signatures s
          ≡ (ok (signatures ++ made), record s { calls = s.calls ++ asks d u index inputs }))
        × Collected d u backend s.calls index inputs made
  unfolding sign_hashes proceed asks
  loop_completes signs index [] [] signatures s feeds =
      ([], same_end s (++-none signatures) (++-none s.calls), tt)
  loop_completes signs index [] (input ∷ inputs) signatures s feeds = absurd feeds
  loop_completes signs index (hash ∷ hashes) [] signatures s feeds = absurd feeds
  loop_completes signs index (hash ∷ hashes) (input ∷ inputs) signatures s feeds =
      let w = signs s.calls (backend_request d u index input) in
      let first = call_completes index input signatures s w.0 w.1 w.2 in
      let same = suite-of u w.0 w.2 in
      let rest =
        loop_completes signs (suc index) hashes inputs (signatures ++ normal w.0 ∷ [])
          (with_call d u index input s) feeds.1 in
      (
        normal w.0 ∷ rest.0,
        rw feeds.0 (
            rw first
              (rest.1 ∙ same_end s (++-assoc_one signatures _ _) (++-assoc_one s.calls _ _))),
        (
          w.0,
          w.1,
          same.0,
          same.1,
          ap (λ suite. record { crypto_suite = suite; bytes = w.0.bytes }) same.0,
          rest.2,
        ),
      )

  -- The loop ends with the right signature of every hash: when the messages of the request are bound to
  -- its hashes, as `validate_shape` checks, and the backend answers every request with a signature
  -- of the request's suite and encoding, `sign_hashes` answers `Ok` with the backend's signatures,
  -- one for each input and in their order, leaves the engine alone, and has asked the backend for
  -- exactly these inputs, each once and in their order. The inputs are the hashes, or for Ed25519
  -- the messages.
  pub sign_hashes-completes :
      messages_are_bound d.engine.hashes u.crypto_suite u ≡ true
      → Signs u backend
      → (s : Service)
      → (made : List NormalizedSignature) × (sign_hashes d u backend 0 u.ordered_hashes [] s ≡ (
        ok made,
        record s { calls = s.calls ++ asks d u 0 (inputs_of (input_kind u.crypto_suite) u) },
      ))
        × Collected d u backend s.calls 0 (inputs_of (input_kind u.crypto_suite) u) made
  sign_hashes-completes bound signs s =
      loop_completes signs 0 u.ordered_hashes (inputs_of (input_kind u.crypto_suite) u) [] s
        (request-Feeds u d.engine.hashes bound)
