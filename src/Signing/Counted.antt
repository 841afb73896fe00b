-- ===== src/Signing/Counted.antt =====
-- The counters of an approval are the operations and signatures that its operations hold, and stay
-- within the limits of its terms.
use bloom_signer.Prelude.{
  ℕ, ◌+◌, ◌≤◌, Bool, true, false, List, [], ◌∷◌, ◌++◌, none, some, ◌≡◌, ◌≢◌, refl, sym, ◌∙◌, find?,
  update_where, count_where, arith, Bool-cases, inl, inr, All,
}
use bloom_signer.Prelude.Split.{
  found-Split, Split-All, All-mono, update_where-All, count_where-++, find?-none-count,
}
use bloom_signer.Signing.Terms.{SealedApprovalTerms}
use bloom_signer.Signing.State.{
  released, state_eq, Approval, Operation, Tables, is_approval, is_operation,
}
use bloom_signer.Signing.Authorize.{set_counters}
use bloom_signer.Signing.Revoke.{deactivated}
use bloom_signer.Signing.Totals.{
  share, signature_share, total, live_operations, live_signatures, total-new, share-other,
  share-live, share-released, share-same, Replaced-total,
}
use bloom_signer.Signing.Changes.{Replaced, Change, keep, reserve, settle, release, deactivate}

-- The counters of one approval are right, and within the terms.
pub record IsWithin (rows : List Operation) (a : Approval) : Type 0 where
  pub operations_counted : a.committed_operations ≡ live_operations a.approval_id rows
  pub signatures_counted : a.committed_signatures ≡ live_signatures a.approval_id rows
  pub within :
      (terms : SealedApprovalTerms)
      → a.terms ≡ some terms
      → (a.committed_operations ≤ terms.limits.max_operations)
        × (a.committed_signatures ≤ terms.limits.max_signatures)

-- Operation ids and approval ids are keys, and every approval is within its terms.
pub record IsConsistent (t : Tables) : Type 0 where
  pub unique_operations : (id : ℕ) → count_where (is_operation id) t.operations ≤ 1
  pub unique_approvals : (id : ℕ) → count_where (is_approval id) t.approvals ≤ 1
  pub approvals_within : All (IsWithin t.operations) t.approvals

-- The ids that an update of a row keeps.
pub count-replaced :
    (id : ℕ) (before after : List Operation) (row new : Operation)
    → new.operation_id ≡ row.operation_id
    → count_where (is_operation id) (before ++ new ∷ after)
      ≡ count_where (is_operation id) (before ++ row ∷ after)
unfolding is_operation count_where
count-replaced id before after row new e =
    count_where-++ (is_operation id) before (new ∷ after)
    ∙ rw e (sym (count_where-++ (is_operation id) before (row ∷ after)))

count-set_counters :
    (id hit operations signatures : ℕ) (rows : List Approval)
    → count_where
        (is_approval id)
        (update_where (is_approval hit) (set_counters operations signatures) rows)
      ≡ count_where (is_approval id) rows
unfolding is_approval count_where update_where
count-set_counters id hit operations signatures [] = refl
count-set_counters id hit operations signatures (a ∷ rows) =
    let h = count-set_counters id hit operations signatures rows in
    elim (Bool-cases (is_approval hit a)) [ inl u ↦ rw u (rw h refl) | inr u ↦ rw u (rw h refl) ]

-- A replaced row keeps the ids unique.
Replaced-unique :
    {row new : Operation} {t t' : Tables} (w : Replaced row new t t') (id : ℕ)
    → count_where (is_operation id) t.operations ≤ 1
    → count_where (is_operation id) t'.operations ≤ 1
Replaced-unique {row} {new} {t} {t'} w id h =
    let e = count-replaced id w.before w.after row new w.same_key.same_operation in
    rw w.operations (rw e (rw w.whole at h))

keeps-counts :
    (rows rows' : List Operation) (a : Approval)
    → live_operations a.approval_id rows' ≡ live_operations a.approval_id rows
    → live_signatures a.approval_id rows' ≡ live_signatures a.approval_id rows
    → IsWithin rows a
    → IsWithin rows' a
keeps-counts rows rows' a e f h = record {
  operations_counted = h.operations_counted ∙ sym e;
  signatures_counted = h.signatures_counted ∙ sym f;
  within = h.within;
}

differs : (id : ℕ) (a : Approval) → is_approval id a ≡ false → id ≢ a.approval_id
unfolding is_approval
differs id a h e = ground arith

matches : (id : ℕ) (a : Approval) → is_approval id a ≡ true → a.approval_id ≡ id
unfolding is_approval
matches id a h = ground arith

settle-IsConsistent :
    (t t' : Tables) (row new : Operation)
    → Replaced row new t t'
    → state_eq new.state released ≡ false
    → t'.approvals ≡ t.approvals
    → IsConsistent t
    → IsConsistent t'
settle-IsConsistent t t' row new w live e h = record {
  unique_operations = λ id. Replaced-unique w id (h.unique_operations id);
  unique_approvals = λ id. rw e (h.unique_approvals id);
  approvals_within = rw e (All-mono t.approvals each h.approvals_within);
}
  where
    each : (a : Approval) → IsWithin t.operations a → IsWithin t'.operations a
    each a k =
        let s = share-same a.approval_id row new w.same_key w.was_live live in
        let c = Replaced-total w (share a.approval_id) in
        let d = Replaced-total w (signature_share a.approval_id) in
        keeps-counts t.operations t'.operations a (omega arith) (omega arith) k

release-IsConsistent :
    (t t' : Tables) (row new : Operation) (approval : Approval)
    (next_operations next_signatures : ℕ)
    → Replaced row new t t'
    → state_eq new.state released ≡ true
    → find? (is_approval row.approval_id) t.approvals ≡ some approval
    → next_operations + 1 ≡ approval.committed_operations
    → next_signatures + row.signature_count ≡ approval.committed_signatures
    → t'.approvals
      ≡ update_where
          (is_approval row.approval_id)
          (set_counters next_operations next_signatures)
          t.approvals
    → IsConsistent t
    → IsConsistent t'
release-IsConsistent t t' row new approval next_operations next_signatures w gone f o s e h =
    let split =
      found-Split (is_approval row.approval_id) t.approvals approval f
        (h.unique_approvals row.approval_id) in
    record {
      unique_operations = λ id. Replaced-unique w id (h.unique_operations id);
      unique_approvals = λ id. rw e (
          rw (count-set_counters id row.approval_id next_operations next_signatures t.approvals)
            (h.unique_approvals id));
      approvals_within = rw e (
          Split-All (set_counters next_operations next_signatures) split other (given split.hit)
            h.approvals_within);
    }
  where
    other :
        (a : Approval)
        → is_approval row.approval_id a ≡ false
        → IsWithin t.operations a
        → IsWithin t'.operations a
    other a miss k =
        let x = share-other a.approval_id row (differs row.approval_id a miss) in
        let y = share-released a.approval_id new gone in
        let c = Replaced-total w (share a.approval_id) in
        let d = Replaced-total w (signature_share a.approval_id) in
        keeps-counts t.operations t'.operations a (omega arith) (omega arith) k

    given :
        is_approval row.approval_id approval ≡ true
        → IsWithin t.operations approval
        → IsWithin t'.operations (set_counters next_operations next_signatures approval)
    given hit k =
        let same = matches row.approval_id approval hit in
        let x = share-live row w.was_live in
        let y = share-released row.approval_id new gone in
        let c = Replaced-total w (share row.approval_id) in
        let d = Replaced-total w (signature_share row.approval_id) in
        let before_operations : approval.committed_operations
            ≡ live_operations row.approval_id t.operations =
          rw (sym same) k.operations_counted in
        let before_signatures : approval.committed_signatures
            ≡ live_signatures row.approval_id t.operations =
          rw (sym same) k.signatures_counted in
        record {
          operations_counted = rw same (omega arith);
          signatures_counted = rw same (omega arith);
          within = λ terms p. let b = k.within terms p in (omega arith, omega arith);
        }

-- A new operation, whose id had no row.
new_unique :
    (rows : List Operation) (new : Operation)
    → find? (is_operation new.operation_id) rows ≡ none
    → (id : ℕ) → count_where (is_operation id) rows ≤ 1
    → count_where (is_operation id) (rows ++ new ∷ []) ≤ 1
unfolding is_operation count_where
new_unique rows new f id h = elim (Bool-cases (is_operation id new)) [
  | inl u ↦
      let same : new.operation_id ≡ id = ground arith in
      let e = find?-none-count (is_operation new.operation_id) rows f in
      let k : count_where (is_operation id) rows ≡ 0 = rw (sym same) e in
      let c = count_where-++ (is_operation id) rows (new ∷ []) in rw c (rw k (rw u (omega arith)))
  | inr u ↦ let c = count_where-++ (is_operation id) rows (new ∷ []) in rw c (rw u (omega arith))
]

reserve-IsConsistent :
    (t t' : Tables) (new : Operation) (approval : Approval) (terms : SealedApprovalTerms)
    (next_operations next_signatures : ℕ)
    → find? (is_approval new.approval_id) t.approvals ≡ some approval
    → approval.terms ≡ some terms
    → (next_operations ≡ approval.committed_operations + 1)
      × (next_operations ≤ terms.limits.max_operations)
    → (next_signatures ≡ approval.committed_signatures + new.signature_count)
      × (next_signatures ≤ terms.limits.max_signatures)
    → state_eq new.state released ≡ false
    → find? (is_operation new.operation_id) t.operations ≡ none
    → t'.operations ≡ t.operations ++ new ∷ []
    → t'.approvals
      ≡ update_where
          (is_approval new.approval_id)
          (set_counters next_operations next_signatures)
          t.approvals
    → IsConsistent t
    → IsConsistent t'
reserve-IsConsistent t t' new approval terms next_operations next_signatures f p o s live free e a
      h =
    let split =
      found-Split (is_approval new.approval_id) t.approvals approval f
        (h.unique_approvals new.approval_id) in
    record {
      unique_operations = λ id. rw e (new_unique t.operations new free id (h.unique_operations id));
      unique_approvals = λ id. rw a (
          rw (count-set_counters id new.approval_id next_operations next_signatures t.approvals)
            (h.unique_approvals id));
      approvals_within = rw a (
          Split-All (set_counters next_operations next_signatures) split other (given split.hit)
            h.approvals_within);
    }
  where
    totals : (g : Operation → ℕ) → total g t'.operations ≡ total g t.operations + g new
    totals g = rw e (total-new g t.operations new)

    other :
        (x : Approval)
        → is_approval new.approval_id x ≡ false
        → IsWithin t.operations x
        → IsWithin t'.operations x
    other x miss k =
        let none_of = share-other x.approval_id new (differs new.approval_id x miss) in
        let c = totals (share x.approval_id) in
        let d = totals (signature_share x.approval_id) in
        keeps-counts t.operations t'.operations x (omega arith) (omega arith) k

    terms_same : {terms' : SealedApprovalTerms} → approval.terms ≡ some terms' → terms' ≡ terms
    terms_same q = cc

    given :
        is_approval new.approval_id approval ≡ true
        → IsWithin t.operations approval
        → IsWithin t'.operations (set_counters next_operations next_signatures approval)
    given hit k =
        let same = matches new.approval_id approval hit in
        let x = share-live new live in
        let c = totals (share new.approval_id) in
        let d = totals (signature_share new.approval_id) in
        let before_operations : approval.committed_operations
            ≡ live_operations new.approval_id t.operations =
          rw (sym same) k.operations_counted in
        let before_signatures : approval.committed_signatures
            ≡ live_signatures new.approval_id t.operations =
          rw (sym same) k.signatures_counted in
        record {
          operations_counted = rw same (omega arith);
          signatures_counted = rw same (omega arith);
          within = λ terms' q. rw (terms_same q) (o.1, s.1);
        }

-- A deactivated approval keeps its id, its terms and its counters.
count-deactivated :
    (id : ℕ) (test : Approval → Bool) (rows : List Approval)
    → count_where (is_approval id) (update_where test deactivated rows)
      ≡ count_where (is_approval id) rows
unfolding is_approval count_where update_where
count-deactivated id test [] = refl
count-deactivated id test (a ∷ rows) =
    let h = count-deactivated id test rows in
    elim (Bool-cases (test a)) [ inl u ↦ rw u (rw h refl) | inr u ↦ rw u (rw h refl) ]

deactivated-IsWithin :
    (rows : List Operation) (a : Approval) → IsWithin rows a → IsWithin rows (deactivated a)
deactivated-IsWithin rows a h = record {
  operations_counted = h.operations_counted;
  signatures_counted = h.signatures_counted;
  within = h.within;
}

-- Every change keeps the tables consistent.
pub Change-IsConsistent : (t t' : Tables) → Change t t' → IsConsistent t → IsConsistent t'
Change-IsConsistent t t' (keep o a) h = record {
  unique_operations = λ id. rw o (h.unique_operations id);
  unique_approvals = λ id. rw a (h.unique_approvals id);
  approvals_within = rw a (rw o h.approvals_within);
}
Change-IsConsistent t t' (reserve new approval terms n m f p o s l r e a) h =
    reserve-IsConsistent t t' new approval terms n m f p o s l r e a h
Change-IsConsistent t t' (settle row new w l e) h = settle-IsConsistent t t' row new w l e h
Change-IsConsistent t t' (release row new approval n m w g f o s e) h =
    release-IsConsistent t t' row new approval n m w g f o s e h
Change-IsConsistent t t' (deactivate test o a) h = record {
  unique_operations = λ id. rw o (h.unique_operations id);
  unique_approvals =
      λ id. rw a (rw (count-deactivated id test t.approvals) (h.unique_approvals id));
  approvals_within = rw a (
      rw o (
        update_where-All test deactivated t.approvals (deactivated-IsWithin t.operations)
          h.approvals_within));
}
