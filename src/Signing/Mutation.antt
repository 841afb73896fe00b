-- ===== src/Signing/Mutation.antt =====
-- The outcomes of a transaction of crates/bloom-signer/src/engine.rs (`mutation_transaction`, the
-- body, `append_audit` and the commit).
use bloom_signer.Prelude.{Bool, true, false, List, Option, none, some, ◌≡◌, refl}
use bloom_signer.Prelude.Result.{Result, ok, err, panic, ProtocolErrorCode}
use bloom_signer.Prelude.Tx.{Tx, Post, Post-ok}
use bloom_signer.Signing.State.{
  SignAudit, Tables, Engine, Deps, mutation_transaction, transaction_at, commit, audited,
}

module _ {ℓ} {A : Type 0} (P : Result A → Engine → Type ℓ) (deps : Deps)
    (body : Tx Tables (A × Option SignAudit)) (s : Engine)
    (failed : (e : ProtocolErrorCode) (s' : Engine) → s'.tables ≡ s.tables → P (err e) s')
    (panicked : P panic s)
    (done : (a : A) (event : Option SignAudit) (t : Tables) (audit : List SignAudit) (s' : Engine)
      → body s.tables ≡ ok ((a, event), t)
      → s'.tables ≡ record t { audit = audit }
      → P (ok a) s') where
  audited-cases :
      (a : A) (event : SignAudit) (t : Tables) (entry : Option (List SignAudit))
      → body s.tables ≡ ok ((a, some event), t)
      → P (audited a entry t s).0 (audited a entry t s).1
  unfolding audited
  audited-cases a event t (some audit) e = done a (some event) t audit _ e refl
  audited-cases a event t none e = failed _ _ refl

  commit-cases :
      (r : Result ((A × Option SignAudit) × Tables))
      → body s.tables ≡ r
      → P (commit deps r s).0 (commit deps r s).1
  unfolding commit
  commit-cases (ok ((a, some event), t)) e = audited-cases a event t _ e
  commit-cases (ok ((a, none), t)) e = done a none t t.audit _ e refl
  commit-cases (err code) e = failed code s refl
  commit-cases panic e = panicked

  transaction-cases :
      (degraded verifies : Bool)
      → P
          (transaction_at degraded verifies deps body s).0
          (transaction_at degraded verifies deps body s).1
  unfolding transaction_at
  transaction-cases true verifies = failed _ _ refl
  transaction-cases false false = failed _ _ refl
  transaction-cases false true = commit-cases (body s.tables) refl

  -- The transaction fails and leaves the tables as they were, or its body has run to the end.
  pub mutation-cases : P (mutation_transaction deps body s).0 (mutation_transaction deps body s).1
  unfolding mutation_transaction
  mutation-cases = transaction-cases s.audit_degraded (deps.audit_verifies s.tables.audit)

-- What a transaction leaves behind satisfies `P`, if its start does and a successful body does.
pub mutation-keeps {ℓ} :
    {A : Type 0} (P : Tables → Type ℓ) (deps : Deps) (body : Tx Tables (A × Option SignAudit))
    (s : Engine)
    → ((t : Tables) (audit : List SignAudit) → P t → P (record t { audit = audit }))
    → P s.tables
    → Post (λ _ t. P t) (body s.tables)
    → P (mutation_transaction deps body s).1.tables
mutation-keeps P deps body s ignores h k =
    mutation-cases (λ _ s'. P s'.tables) deps body s (λ e s' same. rw same h) h
      λ a event t audit s' e same. rw same (ignores t audit (Post-ok k e))
