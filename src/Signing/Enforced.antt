-- ===== src/Signing/Enforced.antt =====
-- Revocations of crates/bloom-signer/src/engine.rs stay in force: every stored tombstone and result of
-- a revocation binds the approvals and the wallet epochs.
use bloom_signer.Prelude.{
  ℕ, ◌+◌, ◌≤◌, Bool, true, false, List, [], ◌∷◌, ◌++◌, some, ◌≡◌, refl, sym, ap, subst,
  update_where, find?, arith, Bool-cases, inl, inr, All,
}
use bloom_signer.Prelude.Split.{find?-All, All-++, All-mono, update_where-All}
use bloom_signer.Signing.Revocation.{
  ApprovalTombstone, RevocationState, RevocationResult, approval_result, wallet_result,
  RevocationOperation,
}
use bloom_signer.Signing.State.{Approval, SignAudit, Tables, is_approval}
use bloom_signer.Signing.Checks.{wallet_epoch}
use bloom_signer.Signing.Limits.{checked_add}
use bloom_signer.Signing.Revoke.{deactivated, belongs_to, put_epoch}
use bloom_signer.Signing.Rest.{Rest}
use bloom_signer.Signing.Revoked.{
  Revocation, retried, reconciled, revoked, WalletRevocation, retried_all, revoked_all,
}
use bloom_signer.Signing.Observed.{ClockOnly}
use bloom_signer.Signing.Epochs.{put_epoch-own, put_epoch-raises}
use bloom_signer.Signing.Changes.{Change, keep, reserve, settle, release, deactivate}

-- No row of the approval is active.
abbrev pub Inactive : ℕ → Approval → Type 0
Inactive id a = is_approval id a ≡ true → a.active ≡ false

abbrev pub IsInactive : ℕ → Tables → Type 0
IsInactive id t = All (Inactive id) t.approvals

-- The result of a revocation is in force.
unfoldable pub InForce : Tables → RevocationResult → Type 0
InForce t (approval_result x) = IsInactive x.approval_id t
InForce t (wallet_result x) = x.wallet_revocation_epoch ≤ wallet_epoch t x.wallet_id

-- All the stored revocations are in force.
pub record IsEnforced (t : Tables) : Type 0 where
  pub tombstones : All (λ x. IsInactive x.approval_id t) t.approval_tombstones
  pub results : All (λ row. InForce t row.result) t.revocation_operations

-- No approval is activated, and no epoch falls.
pub record Tighter (t t' : Tables) : Type 0 where
  pub inactive : (id : ℕ) → IsInactive id t → IsInactive id t'
  pub epochs : (wallet : ℕ) → wallet_epoch t wallet ≤ wallet_epoch t' wallet

pub Tighter-refl : (t : Tables) → Tighter t t
Tighter-refl t = record { inactive = λ id h. h; epochs = λ wallet. omega arith }

pub Tighter-then : {t t' t'' : Tables} → Tighter t t' → Tighter t' t'' → Tighter t t''
Tighter-then a b = record {
  inactive = λ id h. b.inactive id (a.inactive id h);
  epochs = λ wallet. let x = a.epochs wallet in let y = b.epochs wallet in omega arith;
}

Tighter-InForce :
    (t t' : Tables) → Tighter t t' → (r : RevocationResult) → InForce t r → InForce t' r
unfolding InForce
Tighter-InForce t t' w (approval_result x) h = w.inactive x.approval_id h
Tighter-InForce t t' w (wallet_result x) h = let k = w.epochs x.wallet_id in omega arith

Change-IsInactive : (t t' : Tables) → Change t t' → (id : ℕ) → IsInactive id t → IsInactive id t'
unfolding is_approval
Change-IsInactive t t' (keep o a) id h = rw a h
Change-IsInactive t t' (reserve new approval terms n m f p o s l r e a) id h =
    rw a (update_where-All _ _ t.approvals (λ x k. k) h)
Change-IsInactive t t' (settle row new w l e) id h = rw e h
Change-IsInactive t t' (release row new approval n m w g f o s e) id h =
    rw e (update_where-All _ _ t.approvals (λ x k. k) h)
Change-IsInactive t t' (deactivate test o a) id h =
    rw a (update_where-All test deactivated t.approvals (λ x k u. refl) h)

-- A change that leaves the revocations alone.
pub Tighter-same : (t t' : Tables) → Change t t' → t'.wallet_states ≡ t.wallet_states → Tighter t t'
unfolding wallet_epoch
Tighter-same t t' change e = record {
  inactive = Change-IsInactive t t' change;
  epochs = λ wallet. rw e (omega arith);
}

Tighter-keeps :
    (t t' : Tables)
    → Tighter t t'
    → t'.approval_tombstones ≡ t.approval_tombstones
    → t'.revocation_operations ≡ t.revocation_operations
    → IsEnforced t
    → IsEnforced t'
Tighter-keeps t t' w e f h = record {
  tombstones =
      rw e (All-mono t.approval_tombstones (λ x k. w.inactive x.approval_id k) h.tombstones);
  results =
      subst (All (λ row. InForce t' row.result)) (sym f)
        (All-mono t.revocation_operations (λ row k. Tighter-InForce t t' w row.result k) h.results);
}

pub Rest-IsEnforced : (t t' : Tables) → Change t t' → Rest t t' → IsEnforced t → IsEnforced t'
Rest-IsEnforced t t' change r h =
    Tighter-keeps t t' (Tighter-same t t' change r.wallet_states) r.approval_tombstones
      r.revocation_operations h

pub ClockOnly-IsEnforced : (t t' : Tables) → ClockOnly t t' → IsEnforced t → IsEnforced t'
ClockOnly-IsEnforced t t' c h =
    Tighter-keeps t t' (Tighter-same t t' (keep c.operations c.approvals) c.wallet_states)
      c.approval_tombstones c.revocation_operations h

-- After the update no row of the approval is active.
deactivated-IsInactive :
    (id : ℕ) (rows : List Approval)
    → All (Inactive id) (update_where (is_approval id) deactivated rows)
unfolding update_where is_approval
deactivated-IsInactive id [] = tt
deactivated-IsInactive id (a ∷ rows) = elim (Bool-cases (is_approval id a)) [
  | inl u ↦ rw u ((λ v. refl), deactivated-IsInactive id rows)
  | inr u ↦ rw u ((λ v. absurd (true-false v u)), deactivated-IsInactive id rows)
]
  where
    true-false : is_approval id a ≡ true → is_approval id a ≡ false → ⊥
    true-false v w = cc

-- A result that is found in the table is in force.
found-InForce :
    (t : Tables) (test : RevocationOperation → Bool) (rows : List RevocationOperation)
    (row : RevocationOperation)
    → find? test rows ≡ some row
    → All (λ row. InForce t row.result) rows
    → InForce t row.result
found-InForce t test rows row f h = find?-All (λ row. InForce t row.result) test rows row f h

-- The stored results, and one more.
results-grown :
    (t t' : Tables) (row : RevocationOperation)
    → Tighter t t'
    → t'.revocation_operations ≡ t.revocation_operations ++ row ∷ []
    → InForce t' row.result
    → IsEnforced t
    → All (λ row. InForce t' row.result) t'.revocation_operations
results-grown t t' row w e new h = subst (All (λ row. InForce t' row.result)) (sym e) (
    All-++ (λ row. InForce t' row.result) t.revocation_operations (row ∷ [])
      (All-mono t.revocation_operations (λ row k. Tighter-InForce t t' w row.result k) h.results)
      (new, tt))

tombstones-kept :
    (t t' : Tables)
    → Tighter t t'
    → t'.approval_tombstones ≡ t.approval_tombstones
    → IsEnforced t
    → All (λ x. IsInactive x.approval_id t') t'.approval_tombstones
tombstones-kept t t' w e h =
    rw e (All-mono t.approval_tombstones (λ x k. w.inactive x.approval_id k) h.tombstones)

raised-Tighter :
    (wallet next : ℕ) (t t' : Tables)
    → wallet_epoch t wallet ≤ next
    → t'.operations ≡ t.operations
    → t'.approvals ≡ update_where (belongs_to wallet) deactivated t.approvals
    → t'.wallet_states ≡ put_epoch wallet next t.wallet_states
    → Tighter t t'
unfolding wallet_epoch
raised-Tighter wallet next t t' h o a e = record {
  inactive = Change-IsInactive t t' (deactivate (belongs_to wallet) o a);
  epochs = λ other. rw e (put_epoch-raises other wallet next t.wallet_states h);
}

own-epoch :
    (wallet next : ℕ) (t t' : Tables)
    → t'.wallet_states ≡ put_epoch wallet next t.wallet_states
    → next ≤ wallet_epoch t' wallet
unfolding wallet_epoch
own-epoch wallet next t t' e = rw e (rw (put_epoch-own wallet next t.wallet_states) (omega arith))

-- Each revocation tightens the tables.
pub Revocation-Tighter :
    (approval operation digest : ℕ) (t : Tables) (r : ApprovalTombstone) (t' : Tables)
    → Revocation approval operation digest t r t'
    → Tighter t t'
Revocation-Tighter approval operation digest t r t' (retried stored e) =
    Tighter-same t t' (keep (rw e refl) (rw e refl)) (rw e refl)
Revocation-Tighter approval operation digest t r t' (reconciled wallet f c e) =
    Tighter-same t t' (keep (rw e refl) (rw e refl)) (rw e refl)
Revocation-Tighter approval operation digest t r t' (revoked row f n c k e) =
    Tighter-same t t' (deactivate (is_approval approval) (rw e refl) (rw e refl)) (rw e refl)

added-more : (a b c : ℕ) → checked_add a b ≡ some c → a + b ≡ c
unfolding checked_add
added-more a b c h = ground arith

pub WalletRevocation-Tighter :
    (wallet operation digest : ℕ) (t : Tables) (r : RevocationState) (t' : Tables)
    → WalletRevocation wallet operation digest t r t'
    → Tighter t t'
WalletRevocation-Tighter wallet operation digest t r t' (retried_all stored e) =
    Tighter-same t t' (keep (rw e refl) (rw e refl)) (rw e refl)
WalletRevocation-Tighter wallet operation digest t r t' (revoked_all tombstone next a c k e) =
    let raised = added-more (wallet_epoch t wallet) 1 next a in
    raised-Tighter wallet next t t' (omega arith) (rw e refl) (rw e refl)
      (ap (λ x. x.wallet_states) e)

-- The tables and the answer of a revocation.
pub Revocation-IsEnforced :
    (approval operation digest : ℕ) (t : Tables) (r : ApprovalTombstone) (t' : Tables)
    → Revocation approval operation digest t r t'
    → IsEnforced t
    → IsEnforced t' × IsInactive r.approval_id t'
unfolding InForce
Revocation-IsEnforced approval operation digest t r t' (retried stored e) h =
    let force = found-InForce t _ t.revocation_operations stored.row stored.found h.results in
    let here : IsInactive r.approval_id t = subst (InForce t) stored.same_result force in
    (subst IsEnforced (sym e) h, subst (IsInactive r.approval_id) (sym e) here)
Revocation-IsEnforced approval operation digest t r t' (reconciled wallet f c e) h =
    let here : IsInactive r.approval_id t =
      find?-All (λ x. IsInactive x.approval_id t) _ t.approval_tombstones r f h.tombstones in
    let w = Revocation-Tighter approval operation digest t r t' (reconciled wallet f c e) in
    let there : IsInactive r.approval_id t' = w.inactive r.approval_id here in
    (
      record {
        tombstones = tombstones-kept t t' w (rw e refl) h;
        results = results-grown t t' _ w (ap (λ x. x.revocation_operations) e) there h;
      },
      there,
    )
Revocation-IsEnforced approval operation digest t r t' (revoked row f n c k e) h =
    let w = Revocation-Tighter approval operation digest t r t' (revoked row f n c k e) in
    let there : IsInactive r.approval_id t' =
      rw k.0 (rw (ap (λ x. x.approvals) e) (deactivated-IsInactive approval t.approvals)) in
    (
      record {
        tombstones =
            subst (All (λ x. IsInactive x.approval_id t')) (sym (ap (λ x. x.approval_tombstones) e))
              (All-++ (λ x. IsInactive x.approval_id t') t.approval_tombstones (r ∷ [])
                (All-mono t.approval_tombstones (λ x m. w.inactive x.approval_id m) h.tombstones)
                (there, tt));
        results = results-grown t t' _ w (ap (λ x. x.revocation_operations) e) there h;
      },
      there,
    )

-- The tables and the answer of a wallet's revocation.
pub WalletRevocation-IsEnforced :
    (wallet operation digest : ℕ) (t : Tables) (r : RevocationState) (t' : Tables)
    → WalletRevocation wallet operation digest t r t'
    → IsEnforced t
    → IsEnforced t' × (r.wallet_revocation_epoch ≤ wallet_epoch t' r.wallet_id)
unfolding InForce
WalletRevocation-IsEnforced wallet operation digest t r t' (retried_all stored e) h =
    let force = found-InForce t _ t.revocation_operations stored.row stored.found h.results in
    let here : InForce t (wallet_result r) = subst (InForce t) stored.same_result force in
    (subst IsEnforced (sym e) h, rw e here)
WalletRevocation-IsEnforced wallet operation digest t r t' (revoked_all tombstone next a c k e) h =
    let states = ap (λ x. x.wallet_states) e in
    let w =
      WalletRevocation-Tighter wallet operation digest t r t'
        (revoked_all tombstone next a c k e) in
    let there : r.wallet_revocation_epoch ≤ wallet_epoch t' r.wallet_id =
      rw k.0 (rw k.1 (own-epoch wallet next t t' states)) in
    (
      record {
        tombstones = tombstones-kept t t' w (rw e refl) h;
        results = results-grown t t' _ w (ap (λ x. x.revocation_operations) e) there h;
      },
      there,
    )

pub audit-IsEnforced :
    (t : Tables) (audit : List SignAudit) → IsEnforced t → IsEnforced (record t { audit = audit })
audit-IsEnforced t audit h = Tighter-keeps t _ (Tighter-same t _ (keep refl refl) refl) refl refl h
