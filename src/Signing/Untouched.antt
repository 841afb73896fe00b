-- ===== src/Signing/Untouched.antt =====
-- The tables that a call of the signing part of crates/bloom-signer/src/engine.rs leaves alone.
use bloom_signer.Prelude.{ℕ, Bool, true, false, List, ◌≡◌, refl}
use bloom_signer.Prelude.Result.{Result}
use bloom_signer.Prelude.Tx.{Post, ended, ok-Post, reject-Post, ok_or-Post, >>=-Post}
use bloom_signer.Signing.Request.{KeyRef}
use bloom_signer.Signing.State.{
  reserved, dispatched, SignerOperationEffect, committed_effect, released_effect,
  quarantined_effect, Operation, Tables,
}
use bloom_signer.Signing.Rest.{Rest, Rest-update, Rest-then}
use bloom_signer.Signing.Effects.{
  is_in_state, is_open, set_state, set_result, dispatch_body, result_body, give_back,
  release_counters, finalize_row, finalize_body,
}
use bloom_signer.Signing.Steps.{update_one-Post}

-- A body that leaves the attempts, the revocations and the clock alone.
abbrev pub KeepsRest : {A : Type 0} → Tables → Result (A × Tables) → Type 0
KeepsRest t r = Post (λ _ t'. (t'.attempts ≡ t.attempts) × Rest t t') r

pub dispatch-KeepsRest :
    (id : ℕ) (key_ref : KeyRef) (attempts : List ℕ) (t : Tables)
    → KeepsRest t (dispatch_body id key_ref attempts t)
unfolding dispatch_body
dispatch-KeepsRest id key_ref attempts t =
    >>=-Post (update_one-Post (is_in_state id reserved) (set_state dispatched) t)
      λ _ t' u. ended (rw u.1 (refl, Rest-update))

pub result-KeepsRest : (id : ℕ) (bytes : List ℕ) (t : Tables) → KeepsRest t (result_body id bytes t)
unfolding result_body
result-KeepsRest id bytes t =
    >>=-Post (update_one-Post (is_open id) (set_result bytes) t)
      λ _ t' u. ended (rw u.1 (refl, Rest-update))

release-KeepsRest :
    (effect : SignerOperationEffect) (row : Operation) (t : Tables)
    → KeepsRest t (release_counters effect row t)
unfolding release_counters give_back
release-KeepsRest released_effect row t = ok-Post _ (
    ok_or-Post _ _
      λ approval f. reject-Post _ _ λ o. reject-Post _ _ λ s. ended (refl, Rest-update))
release-KeepsRest quarantined_effect row t = ended (refl, Rest-update)
release-KeepsRest committed_effect row t = ended (refl, Rest-update)

finalize_row-KeepsRest :
    (id : ℕ) (effect : SignerOperationEffect) (row : Operation) (already : Bool) (t : Tables)
    → KeepsRest t (finalize_row id effect row already t)
unfolding finalize_row
finalize_row-KeepsRest id effect row true t = ended (refl, Rest-update)
finalize_row-KeepsRest id effect row false t = reject-Post _ _ λ m.
    >>=-Post (release-KeepsRest effect row t)
      λ _ t1 e. ok-Post _ (ended (e.0, Rest-then e.1 Rest-update))

pub finalize-KeepsRest :
    (id : ℕ) (effect : SignerOperationEffect) (t : Tables) → KeepsRest t (finalize_body id effect t)
unfolding finalize_body
finalize-KeepsRest id effect t =
    ok-Post _ (ok_or-Post _ _ λ row f. finalize_row-KeepsRest id effect row _ t)
