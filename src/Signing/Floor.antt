-- ===== src/Signing/Floor.antt =====
-- The durable clock of crates/bloom-signer/src/engine.rs: its floor and its read-only decision.
use bloom_signer.Prelude.{
  ℕ, ◌≤◌, Bool, true, false, List, Option, none, some, ◌≡◌, sym, ap, subst, ◌∙◌, arith,
}
use bloom_signer.Prelude.Result.{
  Result, ok, err, panic, >>=-ok, clock_untrusted, ok_or as some_or, ProtocolErrorCode,
}
use bloom_signer.Prelude.Tx.{Post-ok}
use bloom_signer.Signing.Revocation.{ApprovalTombstone, RevocationState}
use bloom_signer.Signing.State.{
  ClockState, PersistedClockState, PlatformTimeReading, DurableClockCondition, durable_healthy,
  durable_untrusted, durable_rollback, durable_forward_jump, DurableDecision, ClockCondition,
  SignAudit, Tables, Engine, Deps, ClockDecision,
}
use bloom_signer.Signing.Clock.{
  comparable_boot_epoch, persisted, evaluate, write_clock_state, answer, observe_body, flatten,
  observe_time, observe_time_read_only,
}
use bloom_signer.Signing.Mutation.{mutation-cases}
use bloom_signer.Signing.Revoked.{
  Revocation, retried, reconciled, revoked, WalletRevocation, retried_all, revoked_all,
}
use bloom_signer.Signing.Counted.{IsConsistent}
use bloom_signer.Signing.Observed.{Observed, observe_body-Observed}
use bloom_signer.Signing.Calls.{Call, run}
use bloom_signer.Signing.Respects.{Respects, run-respects}

-- The evaluation of the durable clock never answers below the state that it was given.
abbrev pub KeepsFloor : Deps → Type 0
KeepsFloor deps =
    (prior : PersistedClockState) (reading : PlatformTimeReading) (epoch : Option ℕ) (max_step : ℕ)
    (d : DurableDecision)
    → deps.evaluate_durable_clock (some prior) reading epoch max_step ≡ some d
    → prior.last_effective_ms ≤ d.effective_now_ms

-- The stored effective time is at least `floor`.
abbrev pub IsAbove : ℕ → Tables → Type 0
IsAbove floor t = (row : ClockState) × (t.clock_state ≡ some row) × (floor ≤ row.last_effective_ms)

written-IsAbove :
    (floor effective : ℕ) (condition : ClockCondition) (reading : PlatformTimeReading)
    (boot_epoch : ℕ) (t t' : Tables)
    → floor ≤ effective
    → t' ≡ write_clock_state effective condition reading boot_epoch t
    → IsAbove floor t'
unfolding write_clock_state
written-IsAbove floor effective condition reading boot_epoch t t' h e =
    (_, ap (λ x. x.clock_state) e, h)

some_or-ok :
    {A : Type 0} (o : Option A) (code : ProtocolErrorCode) (a : A)
    → some_or o code ≡ ok a
    → o ≡ some a
some_or-ok none code a h = cc
some_or-ok (some b) code a h = cc

evaluated-above :
    (deps : Deps) (reading : PlatformTimeReading) (boot_epoch max_step : ℕ) (row : ClockState)
    (d : DurableDecision)
    → KeepsFloor deps
    → evaluate deps reading boot_epoch max_step (some row) ≡ ok d
    → row.last_effective_ms ≤ d.effective_now_ms
unfolding evaluate persisted
evaluated-above deps reading boot_epoch max_step row d floor e =
    let outer = >>=-ok (persisted (some row)) _ d e in
    let inner = >>=-ok (some_or row.boot_epoch clock_untrusted) _ outer.0 outer.1 in
    let found = some_or-ok _ _ d outer.2 in
    let given = ok_injective inner.2 in
    floor _ reading _ max_step d (
      subst
        (λ p.
          deps.evaluate_durable_clock p reading (comparable_boot_epoch boot_epoch) max_step
          ≡ some d)
        (sym given) found)
  where
    ok_injective : {a b : Option PersistedClockState} → ok a ≡ ok b → a ≡ b
    ok_injective x = cc

IsAbove-Respects : (floor : ℕ) (deps : Deps) → KeepsFloor deps → Respects deps (IsAbove floor)
IsAbove-Respects floor deps keeps = record {
  ignores_audit = λ t audit h. h;
  signs = λ t t' change rest h. (h.0, rest.clock_state ∙ h.1, h.2);
  revokes = λ approval operation digest t t' r e h. after_revocation t t' e h;
  revokes_all = λ wallet operation digest t t' r e h. after_wallet t t' e h;
  observes = λ reading boot_epoch max_step rate_limited t t' r e h.
      let above = evaluated-above deps reading boot_epoch max_step h.0 e.evaluated keeps (
        subst (λ c. evaluate deps reading boot_epoch max_step c ≡ ok e.evaluated) h.1
          e.evaluation) in
      let low = h.2 in written-IsAbove floor _ _ _ _ t t' (omega arith) e.written;
  repairs = λ accepted t t' r e h.
      let same = some_injective (sym e.stored ∙ h.1) in
      let forward : h.0.last_effective_ms ≤ accepted = rw (sym same) e.forward in
      let low = h.2 in written-IsAbove floor _ _ _ _ t t' (omega arith) e.written;
}
  where
    some_injective : {a b : ClockState} → some a ≡ some b → a ≡ b
    some_injective x = cc

    after_revocation :
        {approval operation digest : ℕ} (t t' : Tables) {r : ApprovalTombstone}
        → Revocation approval operation digest t r t'
        → IsAbove floor t
        → IsAbove floor t'
    after_revocation t t' (retried stored e) h = (h.0, ap (λ x. x.clock_state) e ∙ h.1, h.2)
    after_revocation t t' (reconciled wallet f c e) h = (h.0, ap (λ x. x.clock_state) e ∙ h.1, h.2)
    after_revocation t t' (revoked row f n c k e) h = (h.0, ap (λ x. x.clock_state) e ∙ h.1, h.2)

    after_wallet :
        {wallet operation digest : ℕ} (t t' : Tables) {r : RevocationState}
        → WalletRevocation wallet operation digest t r t'
        → IsAbove floor t
        → IsAbove floor t'
    after_wallet t t' (retried_all stored e) h = (h.0, ap (λ x. x.clock_state) e ∙ h.1, h.2)
    after_wallet t t' (revoked_all tombstone next a c k e) h =
        (h.0, ap (λ x. x.clock_state) e ∙ h.1, h.2)

-- Effective time never goes back: if the evaluation of the durable clock answers no time below the
-- stored effective time, then from consistent tables that store an effective time of at least
-- `floor`, the tables store one of at least `floor` after any sequence of calls, observations and
-- repairs included.
pub run-clock_floor :
    (floor : ℕ) (deps : Deps) (calls : List Call) (s : Engine)
    → KeepsFloor deps
    → IsConsistent s.tables
    → IsAbove floor s.tables
    → IsAbove floor (run deps calls s).tables
run-clock_floor floor deps calls s keeps c h =
    run-respects (IsAbove-Respects floor deps keeps) calls s c h

answered-ok :
    (rate_limited : Bool) (condition : DurableClockCondition) (d a : ClockDecision)
    → answer rate_limited condition d ≡ ok a
    → d ≡ a
unfolding answer
answered-ok true durable_healthy d a h = cc
answered-ok true durable_untrusted d a h = cc
answered-ok true durable_rollback d a h = cc
answered-ok true durable_forward_jump d a h = cc
answered-ok false condition d a h = cc

-- The read-only decision agrees with the durable one: when `observe_time` answers `Ok` with a
-- decision, rate-limited or not, `observe_time_read_only` of the same reading answers `Ok` with the
-- same decision on the state before, and the state that was written holds the decision's effective
-- time, condition and boot epoch.
pub observe_time-read_only :
    (deps : Deps) (reading : PlatformTimeReading) (boot_epoch max_step : ℕ) (rate_limited : Bool)
    (s s' : Engine) (a : ClockDecision)
    → observe_time deps reading boot_epoch max_step rate_limited s ≡ (ok a, s')
    → (observe_time_read_only deps reading boot_epoch max_step s ≡ ok a)
      × (row : ClockState) × (s'.tables.clock_state ≡ some row)
      × (row.last_effective_ms ≡ a.effective_now_ms)
      × (row.condition ≡ a.condition)
      × (row.boot_epoch ≡ some a.boot_epoch)
unfolding observe_time flatten observe_time_read_only write_clock_state
observe_time-read_only deps reading boot_epoch max_step rate_limited s s' a e =
    subst (λ p. IfOk p.0 p.1) e
      (mutation-cases (λ r s1. IfOk (flatten r) s1) deps
        (observe_body deps reading boot_epoch max_step rate_limited) s (λ e s1 k. tt) tt inside)
  where
    IfOk : Result ClockDecision → Engine → Type 0
    IfOk (ok a) s' =
        (observe_time_read_only deps reading boot_epoch max_step s ≡ ok a)
        × (row : ClockState) × (s'.tables.clock_state ≡ some row)
        × (row.last_effective_ms ≡ a.effective_now_ms)
        × (row.condition ≡ a.condition)
        × (row.boot_epoch ≡ some a.boot_epoch)
    IfOk (err _) s' = Unit {0}
    IfOk panic s' = Unit {0}

    from :
        (r : Result ClockDecision) (t : Tables) (audit : List SignAudit) (s1 : Engine)
        → Observed deps reading boot_epoch max_step rate_limited s.tables r t
        → s1.tables ≡ record t { audit = audit }
        → IfOk r s1
    from (ok b) t audit s1 o k =
        let same = answered-ok rate_limited o.evaluated.condition _ b (sym o.answered) in
        (
          rw o.evaluation (ap ok same),
          _,
          ap (λ x. x.clock_state) k ∙ ap (λ x. x.clock_state) o.written,
          ap (λ d. d.effective_now_ms) same,
          ap (λ d. d.condition) same,
          ap (λ d. some d.boot_epoch) same,
        )
    from (err _) t audit s1 o k = tt
    from panic t audit s1 o k = tt

    inside :
        (r : Result ClockDecision) (event : Option SignAudit) (t : Tables) (audit : List SignAudit)
        (s1 : Engine)
        → observe_body deps reading boot_epoch max_step rate_limited s.tables ≡ ok ((r, event), t)
        → s1.tables ≡ record t { audit = audit }
        → IfOk (flatten (ok r)) s1
    inside r event t audit s1 b k =
        from r t audit s1
          (Post-ok (observe_body-Observed deps reading boot_epoch max_step rate_limited s.tables) b)
          k
