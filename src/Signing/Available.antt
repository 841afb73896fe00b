-- ===== src/Signing/Available.antt =====
-- What `require_key_available` and `validate_petal_key_approval` of
-- crates/bloom-signer/src/engine.rs say of the stored rows of a key.
use bloom_signer.Prelude.{
  ℕ, ◌+◌, ◌≤◌, ◌<◌, true, false, List, [], ◌∷◌, Option, none, some, ◌==◌, not, ◌≡◌, refl, inl, inr,
  ap, arith, any, find?, Any, All, bytes_eq→eq, Bool-cases, Option-cases,
}
use bloom_signer.Prelude.Split.{find?-test}
use bloom_signer.Prelude.Result.{ok}
use bloom_signer.Registry.Types.{Allocation, activated, state_eq}
use bloom_signer.Registry.Path.{Profile}
use bloom_signer.Signing.Request.{CryptoSuite, bip39_multicurve, KeyRef}
use bloom_signer.Signing.Terms.{
  ApprovalSubject, petal_subject, cli_subject, system_subject, ApprovalSelector,
  SealedApprovalTerms, PetalKeyScope,
}
use bloom_signer.Signing.State.{
  Deps, Tables, EnrolledKey, PetalScopeRow, is_petal_class, is_key, is_scope,
}
use bloom_signer.Signing.Checks.{
  enrolled_as, is_enrolled_petal, is_derived_account, has_fingerprint, is_activated,
  check_derived_account, check_enrolled, require_key_available,
}
use bloom_signer.Signing.Petal.{
  contains, allows_suite, check_subject, scope_bound, check_scope, check_scope_row,
  validate_petal_key_approval,
}
use bloom_signer.Signing.Within.{allowed→Any}

-- The key is enrolled as this very reference and available. The child of a wallet's seed is an
-- activated account of the registry, unless a Petal owns the key.
pub record IsAvailable (deps : Deps) (t : Tables) (key : KeyRef) : Type 0 where
  pub row : EnrolledKey
  pub enrolled : find? (is_key key.public_key_fingerprint) t.enrolled_keys ≡ some row
  pub same : deps.key_ref_jcs key ≡ some row.key_ref_jcs
  pub present : deps.key_is_available key ≡ ok true
  pub derived :
      (seed : ℕ) (profile : Profile) (path : ℕ)
      → key.derivation ≡ some (bip39_multicurve seed profile path)
      → is_petal_class row.authority_class ≡ false
      → (a : Allocation) × (find?
            (is_derived_account seed key.public_key_fingerprint)
            t.derivation_allocations
          ≡ some a)
        × (a.state ≡ activated)
        × (a.wallet_id ≡ seed)
        × (a.public_key_fingerprint ≡ some key.public_key_fingerprint)

fingerprint-of :
    (o : Option (List ℕ)) (fingerprint : List ℕ)
    → has_fingerprint o fingerprint ≡ true
    → o ≡ some fingerprint
unfolding has_fingerprint
fingerprint-of none fingerprint h = ground arith
fingerprint-of (some stored) fingerprint h = ap some (bytes_eq→eq stored fingerprint h)

activated-of :
    (seed : ℕ) (fingerprint : List ℕ) (rows : List Allocation)
    → is_activated (find? (is_derived_account seed fingerprint) rows) ≡ true
    → (a : Allocation) × (find? (is_derived_account seed fingerprint) rows ≡ some a)
      × (a.state ≡ activated)
      × (a.wallet_id ≡ seed)
      × (a.public_key_fingerprint ≡ some fingerprint)
unfolding is_activated state_eq is_derived_account
activated-of seed fingerprint rows h =
    elim (Option-cases (find? (is_derived_account seed fingerprint) rows)) [
      | inl e ↦ absurd (ground arith)
      | inr w ↦
          let e = w.1 in
          let own = find?-test (is_derived_account seed fingerprint) rows w.0 w.1 in
          (
            w.0,
            w.1,
            ground arith,
            ground arith,
            fingerprint-of w.0.public_key_fingerprint fingerprint (ground arith),
          )
    ]

check_enrolled-of :
    (deps : Deps) (key : KeyRef) (stored : Option EnrolledKey)
    → check_enrolled deps key stored ≡ ok tt
    → (row : EnrolledKey) × (stored ≡ some row)
      × (deps.key_ref_jcs key ≡ some row.key_ref_jcs)
      × (deps.key_is_available key ≡ ok true)
unfolding check_enrolled enrolled_as
check_enrolled-of deps key none h = ground arith
check_enrolled-of deps key (some row) h = elim (Option-cases (deps.key_ref_jcs key)) [
  | inl e ↦ absurd (ground arith)
  | inr w ↦
      let e = w.1 in (row, refl, ground (arith, bytes_eq→eq row.key_ref_jcs w.0), ground arith)
]

pub require_key_available-IsAvailable :
    (deps : Deps) (t : Tables) (key : KeyRef)
    → require_key_available deps t key ≡ ok tt
    → IsAvailable deps t key
unfolding require_key_available is_enrolled_petal check_derived_account
require_key_available-IsAvailable deps t key h =
    let w =
      check_enrolled-of deps key (find? (is_key key.public_key_fingerprint) t.enrolled_keys)
        (ground arith) in
    record {
      row = w.0;
      enrolled = w.1;
      same = w.2;
      present = w.3;
      derived = λ seed profile path d p.
          activated-of seed key.public_key_fingerprint t.derivation_allocations
            (let e = w.1 in ground arith);
    }

-- A Petal's key signs for its wallet, its package and its routes, with its suites and in its time.
pub record IsInScope (scope : PetalKeyScope) (created expires : ℕ) (terms : SealedApprovalTerms)
    (now : ℕ) : Type 0 where
  pub wallet : terms.wallet_id ≡ scope.wallet_id
  pub subject :
      (route : ℕ) × (agent : Option ℕ) × (terms.subject
        ≡ petal_subject scope.package_hash route agent)
      × Any (λ r. r ≡ route) scope.allowed_routes
  pub suites :
      All (λ suite. Any (λ s. s ≡ suite) scope.allowed_crypto_suites) terms.allowed_crypto_suites
  pub made_before : created ≤ now
  pub begins : created ≤ terms.not_before_ms
  pub lifetime : terms.expires_at_ms ≤ terms.not_before_ms + scope.maximum_lifetime_ms
  pub ends : scope_bound terms.selector ≡ true → (now < expires) × (terms.expires_at_ms ≤ expires)

contains→Any : (value : ℕ) (rows : List ℕ) → contains rows value ≡ true → Any (λ r. r ≡ value) rows
unfolding contains any
contains→Any value [] h = ground arith
contains→Any value (row ∷ rows) h = elim (Bool-cases (row == value)) [
  | inl e ↦ inl (ground arith)
  | inr e ↦ inr (contains→Any value rows (ground arith))
]

suites→All :
    (scope : PetalKeyScope) (suites : List CryptoSuite)
    → any (λ suite. not (allows_suite scope.allowed_crypto_suites suite)) suites ≡ false
    → All (λ suite. Any (λ s. s ≡ suite) scope.allowed_crypto_suites) suites
unfolding any allows_suite
suites→All scope [] h = tt
suites→All scope (suite ∷ suites) h = (
  allowed→Any suite scope.allowed_crypto_suites (ground arith),
  suites→All scope suites (ground arith),
)

check_subject-of :
    (scope : PetalKeyScope) (selector : ApprovalSelector) (subject : ApprovalSubject)
    → check_subject scope selector subject ≡ ok tt
    → (route : ℕ) × (agent : Option ℕ) × (subject ≡ petal_subject scope.package_hash route agent)
      × Any (λ r. r ≡ route) scope.allowed_routes
unfolding check_subject
check_subject-of scope selector (petal_subject hash route agent) h =
    (route, agent, ground arith, contains→Any route scope.allowed_routes (ground arith))
check_subject-of scope selector (cli_subject a b) h = ground arith
check_subject-of scope selector (system_subject a b) h = ground arith

check_scope-IsInScope :
    (scope : PetalKeyScope) (created expires : ℕ) (terms : SealedApprovalTerms) (now : ℕ)
    → check_scope scope created expires terms now ≡ ok tt
    → IsInScope scope created expires terms now
unfolding check_scope
check_scope-IsInScope scope created expires terms now h = record {
  wallet = ground arith;
  subject = check_subject-of scope terms.selector terms.subject (ground arith);
  suites = suites→All scope terms.allowed_crypto_suites (ground arith);
  made_before = ground arith;
  begins = ground arith;
  lifetime = ground arith;
  ends = λ b. (ground arith, ground arith);
}

-- A key that a Petal owns has a stored scope, and the terms stay in it.
abbrev pub IsScoped : Tables → SealedApprovalTerms → ℕ → Type 0
IsScoped t terms now =
    (row : EnrolledKey)
    → find? (is_key terms.key_ref.public_key_fingerprint) t.enrolled_keys ≡ some row
    → is_petal_class row.authority_class ≡ true
    → (stored : PetalScopeRow) × (scope : PetalKeyScope) × (find?
          (is_scope terms.key_ref.public_key_fingerprint) t.petal_key_scopes
        ≡ some stored)
      × (stored.scope ≡ some scope)
      × IsInScope scope stored.created_at_ms stored.expires_at_ms terms now

check_scope_row-of :
    (terms : SealedApprovalTerms) (now : ℕ) (o : Option PetalScopeRow)
    → check_scope_row terms now o ≡ ok tt
    → (stored : PetalScopeRow) × (scope : PetalKeyScope) × (o ≡ some stored)
      × (stored.scope ≡ some scope)
      × IsInScope scope stored.created_at_ms stored.expires_at_ms terms now
unfolding check_scope_row
check_scope_row-of terms now none h = ground arith
check_scope_row-of terms now (some stored) h = elim (Option-cases stored.scope) [
  | inl e ↦ absurd (ground arith)
  | inr w ↦
      let e = w.1 in
      (
        stored,
        w.0,
        refl,
        w.1,
        check_scope-IsInScope w.0 stored.created_at_ms stored.expires_at_ms terms now
            (ground arith),
      )
]

pub validate_petal_key_approval-IsScoped :
    (t : Tables) (terms : SealedApprovalTerms) (now : ℕ)
    → validate_petal_key_approval t terms now ≡ ok tt
    → IsScoped t terms now
unfolding validate_petal_key_approval is_enrolled_petal
validate_petal_key_approval-IsScoped t terms now h row e p =
    check_scope_row-of terms now
      (find? (is_scope terms.key_ref.public_key_fingerprint) t.petal_key_scopes) (ground arith)
