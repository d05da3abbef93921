-- ===== src/Deferred/Outcome.antt =====
-- What becomes of an armed intent: the detour around the cleanup, and the transfer to a probe with
-- its retirement, in src/reconnect_fix.cpp.
use revenant_fix.Prelude.{
  ℕ, ◌≡◌, ◌≢◌, inl, inr, refl, sym, ap, ◌∙◌, Bool, true, false, ◌&&◌, not, some, ◌==◌, arith,
  Bool-cases, none≢some, some-injective,
}
use mathlib.Core.Bool.{false≢true}
use revenant_fix.Deferred.{
  Stage, stage_code, Intent, empty_intent, Probe, FailReason, State, is_stage,
}
use revenant_fix.Deferred.Authority.{FailClock, is_exact, is_transferred_to, retire}
use revenant_fix.Deferred.Arm.{ArmInput, arm, armed_state, armed_intent, may_arm}
use revenant_fix.Deferred.Cleanup.{
  mark_exited, may_transfer, mark_transferred, fail_with, adopt, Exit, exit_stage, exited,
  exited_intent, classify, Original, left_by, cleanup, cleanup_armed, ExitInput,
}
use revenant_fix.Deferred.Pending.{fail_with_lem}

-- A probe that the intent is transferred to.
transferred_exact :
    (i : Intent) (p : Probe)
    → is_exact i p ≡ true
    → is_transferred_to (record (adopt p i) { stage = Stage.authority_probe_transferred }) p ≡ true
unfolding is_exact adopt is_transferred_to stage_code
transferred_exact i p h = ground arith

transferred_other :
    (i : Intent) (p q : Probe)
    → q.request_nonce ≢ p.request_nonce
    → is_transferred_to (record (adopt p i) { stage = Stage.authority_probe_transferred }) q ≡ false
unfolding adopt is_transferred_to stage_code
transferred_other i p q h = ground arith

may_transfer_exact :
    (serial : ℕ) (p current : Probe) (i : Intent)
    → may_transfer serial p current i ≡ true
    → is_exact i current ≡ true
unfolding may_transfer
may_transfer_exact serial p current i h = ground arith

-- An intent that was transferred to a probe is retired by that probe: it is erased where the probe
-- completed, and fails where it did not. A probe with another nonce leaves it as it is.
pub retire-mark_transferred :
    (serial : ℕ) (p current q : Probe) (phase_now now : ℕ) (completed : Bool) (s : State)
    → (mark_transferred serial p current phase_now s).0 ≡ true
    → q.request_nonce ≢ current.request_nonce
    → ((retire current true now (mark_transferred serial p current phase_now s).1).1.intent
        ≡ empty_intent)
      × ((retire current false now (mark_transferred serial p current phase_now s).1).1.intent.stage
          ≡ Stage.failed)
      × (retire q completed now (mark_transferred serial p current phase_now s).1
          ≡ (false, (mark_transferred serial p current phase_now s).1))
unfolding mark_transferred retire
retire-mark_transferred serial p current q phase_now now completed s h ne =
    elim (Bool-cases (may_transfer serial p current s.intent)) [
      | inr f ↦ absurd (false≢true (rw (f, mark_transferred) at h))
      | inl t ↦
          let own =
            transferred_exact s.intent current (may_transfer_exact serial p current s.intent t) in
          let other = transferred_other s.intent current q ne in
          rw (t, own, other) (refl, refl, refl)
    ]

-- What the cleanup makes of an armed intent.
unfoldable pub outcome_of : Intent → Probe → Original → Stage
outcome_of i p Original.missing = Stage.failed
outcome_of i p (Original.raised t) = Stage.failed
outcome_of i p (Original.returned t) = exit_stage (classify i p)

exited-stage :
    (i : Intent) (p : Probe) (now : ℕ) (e : Exit) → (exited_intent p now e i).stage ≡ exit_stage e
unfolding exited_intent
exited-stage i p now Exit.transferred = refl
exited-stage i p now Exit.terminal_completed = refl
exited-stage i p now Exit.terminal_failed = refl
exited-stage i p now Exit.waiting = refl

armed_guard :
    (k : ℕ) (stage : Stage)
    → k ≢ 0
    → stage ≡ Stage.armed_reason4
    → (not (k == 0) && (k == k && is_stage stage Stage.armed_reason4)) ≡ true
unfolding stage_code
armed_guard k stage h st = rw st (ground arith)

fail_armed :
    (i : Intent) (reason : FailReason) (c : FailClock) (s : State)
    → s.intent ≡ i
    → i.serial ≢ 0
    → i.stage ≡ Stage.armed_reason4
    → (fail_with i.serial Stage.armed_reason4 reason c s).intent.stage ≡ Stage.failed
fail_armed i reason c s e h st =
    ap (λ j. (fail_with (Intent.serial j) Stage.armed_reason4 reason c s).intent.stage) (sym e)
    ∙ ap Intent.stage
        (fail_with_lem Stage.armed_reason4 reason c s (rw e h) (rw e st) (λ z. cc) (λ z. cc))

mark_exited_lem :
    (i : Intent) (p : Probe) (now phase_now : ℕ) (s : State)
    → s.intent ≡ i
    → i.serial ≢ 0
    → i.stage ≡ Stage.armed_reason4
    → ((mark_exited i.serial p now phase_now s).0 ≡ true)
      × ((mark_exited i.serial p now phase_now s).1.intent.stage ≡ exit_stage (classify i p))
unfolding mark_exited exited
mark_exited_lem i p now phase_now s e h st =
    rw (e, armed_guard i.serial i.stage h st) (refl, exited-stage i p now (classify i p))

cleanup_armed_lem :
    (i : Intent) (o : Original) (y : ExitInput) (s : State)
    → s.intent ≡ i
    → (left_by o s).intent ≡ i
    → i.serial ≢ 0
    → i.stage ≡ Stage.armed_reason4
    → (cleanup_armed i.serial o y s).intent.stage ≡ outcome_of i y.probe o
unfolding cleanup_armed left_by outcome_of
cleanup_armed_lem i Original.missing y s e l h st =
    fail_armed i FailReason.restore_context_missing y.clock s e h st
cleanup_armed_lem i (Original.raised t) y s e l h st =
    fail_armed i FailReason.native_restore_exception y.clock t l h st
cleanup_armed_lem i (Original.returned t) y s e l h st =
    let (ok, stage) = mark_exited_lem i y.probe y.now y.phase_now t l h st in rw ok stage

armed_by :
    (x : ArmInput) (s : State) (serial : ℕ)
    → (arm x s).0 ≡ some serial
    → ((arm x s).1.intent.serial ≡ serial) × ((arm x s).1.intent.stage ≡ Stage.armed_reason4)
unfolding arm armed_state armed_intent
armed_by x s serial h = elim (Bool-cases (may_arm x s)) [
  | inr f ↦ absurd (none≢some (rw f refl) h)
  | inl t ↦ rw t (some-injective (rw (t, arm) at h), refl)
]

-- Where an intent with a serial other than 0 is armed and the game's own cleanup leaves the intent
-- alone, the detour never leaves it armed: it fails where the original function is missing or raises
-- an exception, and otherwise gets the stage that the probe decides, transferred, idle, failed or
-- waiting for the join.
pub cleanup_lem :
    (x : ArmInput) (original : State → Original) (y : ExitInput) (s : State) (serial : ℕ)
    → (arm x s).0 ≡ some serial
    → serial ≢ 0
    → (left_by (original (arm x s).1) (arm x s).1).intent ≡ (arm x s).1.intent
    → (cleanup x original y s).intent.stage
      ≡ outcome_of (arm x s).1.intent y.probe (original (arm x s).1)
unfolding cleanup
cleanup_lem x original y s serial h nz l =
    let (same, st) = armed_by x s serial h in
    let u = (arm x s).1 in
    rw (h, cleanup)
      (ap (λ k. (cleanup_armed k (original u) y u).intent.stage) (sym same)
        ∙ cleanup_armed_lem u.intent (original u) y u refl l (rw same nz) st)
