-- ===== src/Signing/Expiring.antt =====
-- `active_approvals_expiring_by` of crates/bloom-signer/src/engine.rs: the approvals that an accepted
-- time ends.
use bloom_signer.Prelude.{
  ℕ, Bool, true, false, ◌&&◌, ◌||◌, List, [], ◌∷◌, Option, none, some, ◌==◌, leb, any, rows_where,
  if◌then◌else◌, ◌≡◌, refl, sym, ◌∙◌, ap, arith, ◌⊎◌, inl, inr,
}
use bloom_signer.Prelude.Result.{Result, ok, err, ok_or, malformed_frame, ◌>>=◌}
use bloom_signer.Signing.Terms.{SealedApprovalTerms}
use bloom_signer.Signing.State.{Approval, Tables}

-- `ORDER BY approval_id`
unfoldable pub insert_approval : Approval → List Approval → List Approval
insert_approval row [] = row ∷ []
insert_approval row (next ∷ rows) =
    let rest = insert_approval row rows in
    if leb row.approval_id next.approval_id then row ∷ next ∷ rows else next ∷ rest

unfoldable pub order_approvals : List Approval → List Approval
order_approvals [] = []
order_approvals (row ∷ rows) = insert_approval row (order_approvals rows)

-- The loop over the rows.
unfoldable pub expiring_of : ℕ → List Approval → Result (List ℕ)
expiring_of now [] = ok []
expiring_of now (row ∷ rows) = ok_or row.terms malformed_frame >>= λ terms.
    expiring_of now rows >>= λ rest.
    ok (if leb terms.expires_at_ms now then row.approval_id ∷ rest else rest)

-- `active_approvals_expiring_by`
unfoldable pub active_approvals_expiring_by : ℕ → Tables → Result (List ℕ)
active_approvals_expiring_by now t =
    expiring_of now (order_approvals (rows_where (λ row. row.active) t.approvals))

-- Terms that the accepted time ends.
unfoldable pub has_ended : ℕ → Option SealedApprovalTerms → Bool
has_ended now none = false
has_ended now (some terms) = leb terms.expires_at_ms now

-- Terms whose stored text does not parse.
unfoldable pub is_unreadable : Option SealedApprovalTerms → Bool
is_unreadable none = true
is_unreadable (some terms) = false

unfoldable pub is_listed : ℕ → List ℕ → Bool
is_listed id ids = any (λ other. other == id) ids

-- The answer on rows: an error when the terms of one do not parse, else the ids of those that ended.
unfoldable pub Listing : ℕ → List Approval → Result (List ℕ) → Type 0
Listing now rows answer =
    ((any (λ row. is_unreadable row.terms) rows ≡ true) × (answer ≡ err malformed_frame))
    ⊎ ((ids : List ℕ) × (any (λ row. is_unreadable row.terms) rows ≡ false)
        × (answer ≡ ok ids)
        × ((id : ℕ)
            → is_listed id ids
              ≡ any (λ row. row.approval_id == id && has_ended now row.terms) rows))

-- What an answer says of the table.
unfoldable pub IsExpiring : ℕ → Tables → Result (List ℕ) → Type 0
IsExpiring now t answer =
    ((any (λ row. row.active && is_unreadable row.terms) t.approvals ≡ true)
      × (answer ≡ err malformed_frame))
    ⊎ ((ids : List ℕ) × (any (λ row. row.active && is_unreadable row.terms) t.approvals ≡ false)
        × (answer ≡ ok ids)
        × ((id : ℕ)
            → is_listed id ids
              ≡ any (λ row. row.active && (row.approval_id == id && has_ended now row.terms))
                  t.approvals))

module _ (test : Approval → Bool) where
  any-insert :
      (row : Approval) (rows : List Approval)
      → any test (insert_approval row rows) ≡ (test row || any test rows)
  unfolding insert_approval any
  any-insert row [] = refl
  any-insert row (next ∷ rows) = let rest = any-insert row rows in ground arith

  any-order : (rows : List Approval) → any test (order_approvals rows) ≡ any test rows
  unfolding order_approvals any
  any-order [] = refl
  any-order (row ∷ rows) =
      any-insert row (order_approvals rows) ∙ ap (λ b. test row || b) (any-order rows)

  any-active :
      (rows : List Approval)
      → any test (rows_where (λ row. row.active) rows) ≡ any (λ row. row.active && test row) rows
  unfolding rows_where any
  any-active [] = refl
  any-active (row ∷ rows) = let rest = any-active rows in ground arith

is_listed-add :
    (id new : ℕ) (ended rest : Bool) (ids : List ℕ)
    → is_listed id ids ≡ rest
    → is_listed id (if ended then new ∷ ids else ids) ≡ (new == id && ended || rest)
unfolding is_listed any
is_listed-add id new true rest ids h = ground arith
is_listed-add id new false rest ids h = ground arith

expiring_of-Listing : (now : ℕ) (rows : List Approval) → Listing now rows (expiring_of now rows)
unfolding Listing expiring_of is_unreadable has_ended is_listed any
expiring_of-Listing now [] = inr ([], refl, refl, λ id. refl)
expiring_of-Listing now (row ∷ rows) = from row.terms refl (expiring_of-Listing now rows)
  where
    from :
        (terms : Option SealedApprovalTerms)
        → row.terms ≡ terms
        → Listing now rows (expiring_of now rows)
        → Listing now (row ∷ rows) (expiring_of now (row ∷ rows))
    from none e h = inl (rw e refl, rw e refl)
    from (some terms) e (inl k) = inl (rw e (rw k.0 refl), rw e (rw k.1 refl))
    from (some terms) e (inr (ids, readable, answer, listed)) = inr (
      if leb terms.expires_at_ms now then row.approval_id ∷ ids else ids,
      rw e (rw readable refl),
      rw e (rw answer refl),
      λ id. rw e (
          is_listed-add id row.approval_id (leb terms.expires_at_ms now)
            (any (λ row. row.approval_id == id && has_ended now row.terms) rows) ids (listed id)),
    )

-- `active_approvals_expiring_by` fails with MALFORMED_FRAME exactly when the terms of an active
-- approval do not parse; otherwise it answers `Ok`, and an id is in the answer exactly when an active
-- approval of that id has ended by the accepted time.
pub active_approvals_expiring_by-IsExpiring :
    (now : ℕ) (t : Tables) → IsExpiring now t (active_approvals_expiring_by now t)
unfolding Listing IsExpiring active_approvals_expiring_by
active_approvals_expiring_by-IsExpiring now t =
    from (expiring_of-Listing now (order_approvals (rows_where (λ row. row.active) t.approvals)))
  where
    active : List Approval
    active = rows_where (λ row. row.active) t.approvals

    by_table :
        (test : Approval → Bool)
        → any test (order_approvals active) ≡ any (λ row. row.active && test row) t.approvals
    by_table test = any-order test active ∙ any-active test t.approvals

    from :
        Listing now (order_approvals active) (expiring_of now (order_approvals active))
        → IsExpiring now t (expiring_of now (order_approvals active))
    from (inl k) = inl (sym (by_table _) ∙ k.0, k.1)
    from (inr (ids, readable, answer, listed)) =
        inr (ids, sym (by_table _) ∙ readable, answer, λ id. listed id ∙ by_table _)
