-- ===== src/Signing/Revoked.antt =====
-- What `revoke_approval` and `revoke_all` of crates/bloom-signer/src/engine.rs have done when they
-- succeed.
use bloom_signer.Prelude.{
  ℕ, false, List, [], ◌∷◌, ◌++◌, Option, none, some, ◌==◌, any, find?, update_where, ◌≡◌, refl,
  arith, ap, ◌∙◌, Bool-cases, inl, inr,
}
use bloom_signer.Prelude.Result.{Result, ok, err, ◌>>=◌, >>=-ok, operation_id_conflict}
use bloom_signer.Prelude.Tx.{
  Post, ended, ok-Post, reject-Post, lift-Post, ok_or-Post, >>=-Post, lift-last,
}
use bloom_signer.Signing.Revocation.{
  ApprovalTombstone, WalletTombstone, RevocationState, RevocationResult, approval_result,
  wallet_result, RevocationOperation,
}
use bloom_signer.Signing.State.{Approval, Tables, Deps, is_approval}
use bloom_signer.Signing.Checks.{wallet_epoch}
use bloom_signer.Signing.Limits.{checked_add}
use bloom_signer.Signing.Revoke.{
  is_revocation, is_approval_tombstone, as_approval_result, as_wallet_result, loaded,
  load_revocation_operation, store_revocation_operation, reconcile, revoke_new, revoke_found,
  revoke_unless, revoke_body, belongs_to, deactivated, put_epoch, put_wallet_tombstone,
  signed_state, revoke_all_new, revoke_all_unless, revoke_all_body,
}

abbrev pub operation_row : ℕ → ℕ → ℕ → RevocationResult → RevocationOperation
operation_row operation wallet digest result = record {
  operation_id = operation;
  wallet_id = wallet;
  request_digest = digest;
  result = result;
}

-- The operation id is stored with this digest and result.
pub record Stored (operation digest : ℕ) (result : RevocationResult) (t : Tables) : Type 0 where
  pub row : RevocationOperation
  pub found : find? (is_revocation operation) t.revocation_operations ≡ some row
  pub same_digest : row.request_digest ≡ digest
  pub same_result : row.result ≡ result

pub data Revocation (approval operation digest : ℕ) (t : Tables) (r : ApprovalTombstone)
    (t' : Tables) : Type 0 where
  retried :
      Stored operation digest (approval_result r) t
      → t' ≡ t
      → Revocation approval operation digest t r t'
  reconciled :
      (wallet : ℕ)
      → find? (is_approval_tombstone approval) t.approval_tombstones ≡ some r
      → any (is_revocation operation) t.revocation_operations ≡ false
      → t' ≡ record t {
        revocation_operations =
            t.revocation_operations
            ++ operation_row operation wallet digest (approval_result r) ∷ [];
      }
      → Revocation approval operation digest t r t'
  revoked :
      (row : Approval)
      → find? (is_approval approval) t.approvals ≡ some row
      → find? (is_approval_tombstone approval) t.approval_tombstones ≡ none
      → any (is_revocation operation) t.revocation_operations ≡ false
      → (r.approval_id ≡ approval)
        × (r.wallet_id ≡ row.wallet_id)
        × (r.wallet_revocation_epoch ≡ wallet_epoch t row.wallet_id)
      → t' ≡ record t {
        approvals = update_where (is_approval approval) deactivated t.approvals;
        approval_tombstones = t.approval_tombstones ++ r ∷ [];
        revocation_operations =
            t.revocation_operations
            ++ operation_row operation row.wallet_id digest (approval_result r) ∷ [];
      }
      → Revocation approval operation digest t r t'

pub data WalletRevocation (wallet operation digest : ℕ) (t : Tables) (r : RevocationState)
    (t' : Tables) : Type 0 where
  retried_all :
      Stored operation digest (wallet_result r) t
      → t' ≡ t
      → WalletRevocation wallet operation digest t r t'
  revoked_all :
      (tombstone : WalletTombstone) (next : ℕ)
      → checked_add (wallet_epoch t wallet) 1 ≡ some next
      → any (is_revocation operation) t.revocation_operations ≡ false
      → (r.wallet_id ≡ wallet) × (r.wallet_revocation_epoch ≡ next)
      → t' ≡ record t {
        wallet_states = put_epoch wallet next t.wallet_states;
        wallet_tombstones = put_wallet_tombstone tombstone t.wallet_tombstones;
        approvals = update_where (belongs_to wallet) deactivated t.approvals;
        revocation_operations =
            t.revocation_operations ++ operation_row operation wallet digest (wallet_result r) ∷ [];
      }
      → WalletRevocation wallet operation digest t r t'

-- What the look at the operation id found.
module _ {A : Type 0} (parse : RevocationResult → Result A) (operation digest : ℕ)
    (t : Tables) where
  loaded-some :
      (found : Option RevocationOperation) (a : A)
      → loaded parse digest found ≡ ok (some a)
      → (row : RevocationOperation) × (found ≡ some row)
        × (row.request_digest ≡ digest)
        × (parse row.result ≡ ok a)
  unfolding loaded
  loaded-some none a h = absurd (ok-none h)
    where
      ok-none : ok none ≡ ok (some a) → ⊥
      ok-none e = cc
  loaded-some (some row) a h = elim (Bool-cases (row.request_digest == digest)) [
    | inl u ↦
        let k : (parse row.result >>= λ a. ok (some a)) ≡ ok (some a) = rw u at h in
        let found = >>=-ok (parse row.result) (λ a. ok (some a)) (some a) k in
        (row, refl, ground arith, found.1 ∙ ap ok (some_injective _ _ found.2))
    | inr u ↦ absurd (err-ok (rw u at h))
  ]
    where
      err-ok : err operation_id_conflict ≡ ok (some a) → ⊥
      err-ok e = cc

      some_injective : (x y : A) → ok (some x) ≡ ok (some y) → x ≡ y
      some_injective x y e = cc

load-Post :
    {A : Type 0} (parse : RevocationResult → Result A) (operation digest : ℕ) (t : Tables)
    → Post
        (λ stored t'.
          (loaded parse digest (find? (is_revocation operation) t.revocation_operations)
            ≡ ok stored)
          × (t' ≡ t))
        (load_revocation_operation parse operation digest t)
unfolding load_revocation_operation
load-Post parse operation digest t = ok-Post _ (lift-last t λ a e. (e, refl))

approval-parsed :
    (r : RevocationResult) (x : ApprovalTombstone)
    → as_approval_result r ≡ ok x
    → r ≡ approval_result x
unfolding as_approval_result
approval-parsed (approval_result y) x h = cc
approval-parsed (wallet_result y) x h = cc

wallet-parsed :
    (r : RevocationResult) (x : RevocationState) → as_wallet_result r ≡ ok x → r ≡ wallet_result x
unfolding as_wallet_result
wallet-parsed (approval_result y) x h = cc
wallet-parsed (wallet_result y) x h = cc

-- `store_revocation_operation`
store-Post :
    (operation wallet digest : ℕ) (result : RevocationResult) (t : Tables)
    → Post
        (λ _ t'.
          (any (is_revocation operation) t.revocation_operations ≡ false)
          × (t' ≡ record t {
            revocation_operations =
                t.revocation_operations ++ operation_row operation wallet digest result ∷ [];
          }))
        (store_revocation_operation operation wallet digest result t)
unfolding store_revocation_operation
store-Post operation wallet digest result t =
    ok-Post _ (reject-Post _ _ λ fresh. ended (fresh, refl))

module _ (deps : Deps) (approval : ℕ) (reason : List ℕ) (operation now digest : ℕ)
    (t : Tables) where
  found-Post :
      (row : Approval) (existing : Option ApprovalTombstone)
      → find? (is_approval approval) t.approvals ≡ some row
      → find? (is_approval_tombstone approval) t.approval_tombstones ≡ existing
      → Post
          (λ r t'. Revocation approval operation digest t r.0 t')
          (revoke_found deps approval reason operation now digest row.wallet_id existing t)
  unfolding revoke_found reconcile revoke_new
  found-Post row (some existing) f e =
      >>=-Post (store-Post operation row.wallet_id digest (approval_result existing) t)
        λ _ t1 k. ended (reconciled row.wallet_id e k.0 k.1)
  found-Post row none f e = ok-Post _ (
      lift-Post _ λ signature signed. ok-Post _ (
        ok-Post _ (
          >>=-Post (store-Post operation row.wallet_id digest _ _)
            λ _ t1 k. ended (revoked row f e k.0 (refl, refl, refl) k.1))))

  unless-Post :
      (stored : Option ApprovalTombstone)
      → loaded as_approval_result digest (find? (is_revocation operation) t.revocation_operations)
        ≡ ok stored
      → Post
          (λ r t'. Revocation approval operation digest t r.0 t')
          (revoke_unless deps approval reason operation now digest stored t)
  unfolding revoke_unless
  unless-Post (some result) e =
      let k = loaded-some as_approval_result operation digest t _ result e in
      ended (
        retried
          (record {
            row = k.0;
            found = k.1;
            same_digest = k.2;
            same_result = approval-parsed k.0.result result k.3;
          })
          refl)
  unless-Post none e = ok-Post _ (ok_or-Post _ _ λ row f. ok-Post _ (found-Post row _ f refl))

  -- The body of `revoke_approval`.
  pub revoke_body-Revocation :
      Post
        (λ r t'. Revocation approval operation digest t r.0 t')
        (revoke_body deps approval reason operation now digest t)
  unfolding revoke_body
  revoke_body-Revocation =
      >>=-Post (load-Post as_approval_result operation digest t)
        λ stored t1 k. rw k.1 (unless-Post stored k.0)

module _ (deps : Deps) (wallet operation now digest : ℕ) (t : Tables) where
  signed-Post :
      (epoch : ℕ) (tombstone : Option WalletTombstone) (tombstones : List ApprovalTombstone)
      (t1 : Tables)
      → Post
          (λ r t'. (t' ≡ t1) × (r.wallet_id ≡ wallet) × (r.wallet_revocation_epoch ≡ epoch))
          (signed_state deps wallet epoch tombstone tombstones now t1)
  unfolding signed_state
  signed-Post epoch tombstone tombstones t1 =
      lift-Post _ λ d digested. lift-Post _ λ signature signed. ended (refl, refl, refl)

  new-Post :
      Post
        (λ r t'. WalletRevocation wallet operation digest t r.0 t')
        (revoke_all_new deps wallet operation now digest t)
  unfolding revoke_all_new
  new-Post = ok-Post _ (
      ok_or-Post _ _ λ next added. lift-Post _ λ signature signed. ok-Post _ (
        ok-Post _ (
          ok-Post _ (
            ok-Post _ (
              >>=-Post (signed-Post next _ _ _) λ state t1 k. rw k.0 (
                >>=-Post (store-Post operation wallet digest (wallet_result state) _)
                  λ _ t2 m. ended (revoked_all _ next added m.0 (k.1, k.2) m.1)))))))

  all_unless-Post :
      (stored : Option RevocationState)
      → loaded as_wallet_result digest (find? (is_revocation operation) t.revocation_operations)
        ≡ ok stored
      → Post
          (λ r t'. WalletRevocation wallet operation digest t r.0 t')
          (revoke_all_unless deps wallet operation now digest stored t)
  unfolding revoke_all_unless
  all_unless-Post (some result) e =
      let k = loaded-some as_wallet_result operation digest t _ result e in
      ended (
        retried_all
          (record {
            row = k.0;
            found = k.1;
            same_digest = k.2;
            same_result = wallet-parsed k.0.result result k.3;
          })
          refl)
  all_unless-Post none e = new-Post

  -- The body of `revoke_all`.
  pub revoke_all_body-WalletRevocation :
      Post
        (λ r t'. WalletRevocation wallet operation digest t r.0 t')
        (revoke_all_body deps wallet operation now digest t)
  unfolding revoke_all_body
  revoke_all_body-WalletRevocation =
      >>=-Post (load-Post as_wallet_result operation digest t)
        λ stored t1 k. rw k.1 (all_unless-Post stored k.0)
