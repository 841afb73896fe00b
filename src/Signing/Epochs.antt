-- ===== src/Signing/Epochs.antt =====
-- The revocation epoch of a wallet (`wallet_epoch` of crates/bloom-signer/src/engine.rs) after
-- `revoke_all` wrote it.
use bloom_signer.Prelude.{
  ℕ, ◌≤◌, true, false, List, [], ◌∷◌, ◌++◌, ◌==◌, ◌≡◌, refl, ap, any, find?, update_where, arith,
  Bool-cases, inl, inr,
}
use bloom_signer.Prelude.Rows.{find?-none, find?-append_none}
use bloom_signer.Signing.State.{WalletState, is_wallet}
use bloom_signer.Signing.Checks.{epoch_of}
use bloom_signer.Signing.Revoke.{put_epoch, with_epoch}

abbrev stored_epoch : ℕ → List WalletState → ℕ
stored_epoch wallet rows = epoch_of (find? (is_wallet wallet) rows)

-- A row of another wallet is not touched.
raised-other :
    (other wallet epoch : ℕ) (rows : List WalletState)
    → (other == wallet) ≡ false
    → find? (is_wallet other) (update_where (is_wallet wallet) (with_epoch epoch) rows)
      ≡ find? (is_wallet other) rows
unfolding find? update_where is_wallet
raised-other other wallet epoch [] n = refl
raised-other other wallet epoch (row ∷ rows) n =
    let h = raised-other other wallet epoch rows n in
    elim (Bool-cases (row.wallet_id == wallet)) [
      | inl u ↦ let miss : (row.wallet_id == other) ≡ false = ground arith in rw u (rw miss h)
      | inr u ↦ elim (Bool-cases (row.wallet_id == other)) [
        | inl v ↦ rw u (rw v refl)
        | inr v ↦ rw u (rw v h)
      ]
    ]

raised-own :
    (wallet epoch : ℕ) (rows : List WalletState)
    → any (is_wallet wallet) rows ≡ true
    → stored_epoch wallet (update_where (is_wallet wallet) (with_epoch epoch) rows) ≡ epoch
unfolding find? update_where any is_wallet epoch_of
raised-own wallet epoch [] h = cc
raised-own wallet epoch (row ∷ rows) h = elim (Bool-cases (row.wallet_id == wallet)) [
  | inl u ↦ rw u (rw u refl)
  | inr u ↦ rw u (rw u (raised-own wallet epoch rows (rw u at h)))
]

appended-other :
    (other : ℕ) (new : WalletState) (rows : List WalletState)
    → is_wallet other new ≡ false
    → find? (is_wallet other) (rows ++ new ∷ []) ≡ find? (is_wallet other) rows
unfolding find?
appended-other other new [] n = rw n refl
appended-other other new (row ∷ rows) n = elim (Bool-cases (is_wallet other row)) [
  | inl u ↦ rw u refl
  | inr u ↦ rw u (appended-other other new rows n)
]

own_row :
    (wallet epoch : ℕ)
    → is_wallet wallet (record { wallet_id = wallet; revocation_epoch = epoch }) ≡ true
unfolding is_wallet
own_row wallet epoch = ground arith

other_row :
    (other wallet epoch : ℕ)
    → (other == wallet) ≡ false
    → is_wallet other (record { wallet_id = wallet; revocation_epoch = epoch }) ≡ false
unfolding is_wallet
other_row other wallet epoch n = ground arith

pub put_epoch-own :
    (wallet epoch : ℕ) (rows : List WalletState)
    → stored_epoch wallet (put_epoch wallet epoch rows) ≡ epoch
unfolding put_epoch epoch_of
put_epoch-own wallet epoch rows = elim (Bool-cases (any (is_wallet wallet) rows)) [
  | inl u ↦ rw u (raised-own wallet epoch rows u)
  | inr u ↦ rw u (
      ap epoch_of (
        find?-append_none (is_wallet wallet) rows _ (find?-none (is_wallet wallet) rows u)
          (own_row wallet epoch)))
]

pub put_epoch-other :
    (other wallet epoch : ℕ) (rows : List WalletState)
    → (other == wallet) ≡ false
    → stored_epoch other (put_epoch wallet epoch rows) ≡ stored_epoch other rows
unfolding put_epoch
put_epoch-other other wallet epoch rows n = elim (Bool-cases (any (is_wallet wallet) rows)) [
  | inl u ↦ rw u (ap epoch_of (raised-other other wallet epoch rows n))
  | inr u ↦ rw u (ap epoch_of (appended-other other _ rows (other_row other wallet epoch n)))
]

-- No stored epoch falls when one is raised.
pub put_epoch-raises :
    (other wallet epoch : ℕ) (rows : List WalletState)
    → stored_epoch wallet rows ≤ epoch
    → stored_epoch other rows ≤ stored_epoch other (put_epoch wallet epoch rows)
put_epoch-raises other wallet epoch rows h = elim (Bool-cases (other == wallet)) [
  | inl u ↦
      let same : other ≡ wallet = ground arith in rw same (rw (put_epoch-own wallet epoch rows) h)
  | inr u ↦ let e = put_epoch-other other wallet epoch rows u in omega arith
]
