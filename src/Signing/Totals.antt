-- ===== src/Signing/Totals.antt =====
-- The operations of an approval and their signatures, as sums of what each operation counts:
-- the rows that crates/bloom-signer/src/engine.rs holds against an approval's limits.
use bloom_signer.Prelude.{ℕ, ◌+◌, true, false, List, [], ◌∷◌, ◌++◌, ◌≡◌, ◌≢◌, if◌then◌else◌, arith}
use bloom_signer.Signing.State.{released, state_eq, Operation, Tables}
use bloom_signer.Signing.Limits.{is_live}
use bloom_signer.Signing.Changes.{SameKey, Replaced}

-- What one operation counts for an approval.
unfoldable pub share : ℕ → Operation → ℕ
share id row = if is_live id row then 1 else 0

unfoldable pub signature_share : ℕ → Operation → ℕ
signature_share id row = if is_live id row then row.signature_count else 0

-- The sum of a share over the operations.
unfoldable pub total : (Operation → ℕ) → List Operation → ℕ
total f [] = 0
total f (row ∷ rows) = f row + total f rows

-- The operations of an approval that were not released, and their signatures.
abbrev pub live_operations : ℕ → List Operation → ℕ
live_operations id rows = total (share id) rows

abbrev pub live_signatures : ℕ → List Operation → ℕ
live_signatures id rows = total (signature_share id) rows

total-++ :
    (f : Operation → ℕ) (xs ys : List Operation) → total f (xs ++ ys) ≡ total f xs + total f ys
unfolding total
total-++ f [] ys = omega arith
total-++ f (x ∷ xs) ys = let h = total-++ f xs ys in omega arith

-- Where one row is replaced, the sum changes by the difference of the shares.
total-replaced :
    (f : Operation → ℕ) (before after : List Operation) (row new : Operation)
    → total f (before ++ new ∷ after) + f row ≡ total f (before ++ row ∷ after) + f new
unfolding total
total-replaced f before after row new =
    let h = total-++ f before (row ∷ after) in
    let k = total-++ f before (new ∷ after) in omega arith

pub total-new :
    (f : Operation → ℕ) (rows : List Operation) (new : Operation)
    → total f (rows ++ new ∷ []) ≡ total f rows + f new
unfolding total
total-new f rows new = let h = total-++ f rows (new ∷ []) in omega arith

-- An operation of another approval has no share.
pub share-other :
    (id : ℕ) (row : Operation)
    → row.approval_id ≢ id
    → (share id row ≡ 0) × (signature_share id row ≡ 0)
unfolding share signature_share is_live
share-other id row n = ground arith

pub share-live :
    (row : Operation)
    → state_eq row.state released ≡ false
    → (share row.approval_id row ≡ 1) × (signature_share row.approval_id row ≡ row.signature_count)
unfolding share signature_share is_live
share-live row l = ground arith

pub share-released :
    (id : ℕ) (row : Operation)
    → state_eq row.state released ≡ true
    → (share id row ≡ 0) × (signature_share id row ≡ 0)
unfolding share signature_share is_live
share-released id row l = ground arith

pub share-same :
    (id : ℕ) (row new : Operation)
    → SameKey row new
    → state_eq row.state released ≡ false
    → state_eq new.state released ≡ false
    → (share id new ≡ share id row) × (signature_share id new ≡ signature_share id row)
unfolding share signature_share is_live
share-same id row new k l m = ground (arith, k.same_approval, k.same_count)

-- The totals after a row was replaced.
pub Replaced-total :
    {row new : Operation} {t t' : Tables} (w : Replaced row new t t') (f : Operation → ℕ)
    → total f t'.operations + f row ≡ total f t.operations + f new
Replaced-total {row} {new} {t} {t'} w f =
    rw w.operations (rw w.whole (total-replaced f w.before w.after row new))
