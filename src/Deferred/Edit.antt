-- ===== src/Deferred/Edit.antt =====
-- What the functions of src/reconnect_fix.cpp that write the deferred reconnect can do to it.
use revenant_fix.Prelude.{
  some, ℕ, ◌≡◌, ◌≢◌, ◌⊎◌, inl, inr, refl, Bool, true, false, ◌&&◌, not, ◌==◌, arith, Bool-cases,
  Option-cases, none, if◌then◌else◌, has_bit,
}
use revenant_fix.Deferred.{
  Stage, stage_code, Intent, empty_intent, Probe, FailReason, State, is_stage,
}
use revenant_fix.Deferred.Authority.{
  is_exact, is_transferred_to, retire, may_rebind, rebind, FailClock,
}
use revenant_fix.Deferred.Arm.{
  ArmInput, reject_reason, identity_of, is_active, may_arm, arm, armed_state, next_serial,
}
use revenant_fix.Deferred.Cleanup.{
  classify, adopt, exited_intent, mark_exited, exited, may_transfer, mark_transferred, fail,
  fail_with, stage_mask,
}
use revenant_fix.Deferred.Stages.{is_stage-eq, is_stage-ne}

-- What a step can do to the intent.
pub data Edit (i : Intent) (j : Intent) : Type 0 where
  stays : j ≡ i → Edit i j
  exits :
      (p : Probe) (now : ℕ)
      → i.stage ≡ Stage.armed_reason4
      → j ≡ exited_intent p now (classify i p) i
      → Edit i j
  transfers :
      (p : Probe)
      → is_exact i p ≡ true
      → (i.stage ≡ Stage.master_join_requested) ⊎ (i.stage ≡ Stage.awaiting_native_b)
      → j ≡ record (adopt p i) { stage = Stage.authority_probe_transferred }
      → Edit i j
  fails :
      i.stage ≢ Stage.idle
      → i.stage ≢ Stage.authority_probe_transferred
      → j ≡ record i { stage = Stage.failed }
      → Edit i j
  awaits :
      (now : ℕ)
      → (i.stage ≡ Stage.cleanup_exited) ⊎ (i.stage ≡ Stage.master_join_requested)
      → j ≡ record i {
        stage = Stage.awaiting_native_b;
        last_log_ms = now;
        native_b_wait_started_ms = now;
      }
      → Edit i j
  joins :
      (now call : ℕ)
      → i.stage ≡ Stage.cleanup_exited
      → call ≢ 0
      → j ≡ record i {
        master_join_attempts = 1;
        master_join_requested_ms = now;
        master_join_call = call;
        stage = Stage.master_join_requested;
      }
      → Edit i j
  logs : (now : ℕ) → j ≡ record i { last_log_ms = now } → Edit i j
  ends : i.stage ≡ Stage.authority_probe_transferred → j ≡ empty_intent → Edit i j
  gives_up :
      (now : ℕ)
      → i.stage ≡ Stage.authority_probe_transferred
      → j ≡ record i { stage = Stage.failed; last_log_ms = now }
      → Edit i j
  rebinds :
      (nonce : ℕ)
      → i.stage ≡ Stage.authority_probe_transferred
      → nonce ≢ 0
      → j ≡ record i { authority_probe_nonce = nonce }
      → Edit i j

-- Everything but an arming: an edit of the intent, with the counter of serials as it was.
abbrev pub IsEdit : State → State → Type 0
IsEdit s t = Edit s.intent t.intent × (t.serial_counter ≡ s.serial_counter)

pub may_arm_lem :
    (x : ArmInput) (s : State)
    → may_arm x s ≡ true
    → (reject_reason x (identity_of x) ≡ none) × (is_active s.intent.stage ≡ false)
unfolding may_arm
may_arm_lem x s h = elim (Option-cases (reject_reason x (identity_of x))) [
  | inl e ↦ (e, ground (arith, e))
  | inr (r, e) ↦ absurd (ground (arith, e))
]

pub mark_exited-IsEdit :
    (serial : ℕ) (p : Probe) (now phase_now : ℕ) (s : State)
    → IsEdit s (mark_exited serial p now phase_now s).1
unfolding mark_exited exited
mark_exited-IsEdit serial p now phase_now s =
    elim (Bool-cases (
      not (serial == 0)
      && (s.intent.serial == serial && is_stage s.intent.stage Stage.armed_reason4))) [
        | inl t ↦
            rw t (
              exits p now (is_stage-eq s.intent.stage Stage.armed_reason4 (ground arith)) refl,
              refl,
            )
        | inr f ↦ rw f (stays refl, refl)
      ]

may_transfer_lem :
    (serial : ℕ) (p current : Probe) (i : Intent)
    → may_transfer serial p current i ≡ true
    → (is_exact i current ≡ true)
      × ((i.stage ≡ Stage.master_join_requested) ⊎ (i.stage ≡ Stage.awaiting_native_b))
unfolding may_transfer
may_transfer_lem serial p current i h =
    elim (Bool-cases (is_stage i.stage Stage.master_join_requested)) [
      | inl t ↦ (ground arith, inl (is_stage-eq i.stage Stage.master_join_requested t))
      | inr f ↦ (ground arith, inr (is_stage-eq i.stage Stage.awaiting_native_b (ground arith)))
    ]

pub mark_transferred-IsEdit :
    (serial : ℕ) (p current : Probe) (phase_now : ℕ) (s : State)
    → IsEdit s (mark_transferred serial p current phase_now s).1
unfolding mark_transferred
mark_transferred-IsEdit serial p current phase_now s =
    elim (Bool-cases (may_transfer serial p current s.intent)) [
      | inl t ↦
          let (exact, stage) = may_transfer_lem serial p current s.intent t in
          rw t (transfers current exact stage refl, refl)
      | inr f ↦ rw f (stays refl, refl)
    ]

pub fail-IsEdit : (serial mask : ℕ) (s : State) → IsEdit s (fail serial mask s).1
unfolding fail
fail-IsEdit serial mask s =
    elim (Bool-cases (
      not (serial == 0)
      && (s.intent.serial == serial
          && (has_bit mask (stage_code s.intent.stage)
              && (not (is_stage s.intent.stage Stage.authority_probe_transferred)
                  && not (is_stage s.intent.stage Stage.idle)))))) [
                    | inl t ↦ rw t (
                      fails (is_stage-ne s.intent.stage Stage.idle (ground arith))
                          (is_stage-ne s.intent.stage Stage.authority_probe_transferred
                            (ground arith))
                          refl,
                      refl,
                    )
                    | inr f ↦ rw f (stays refl, refl)
                  ]

pub fail_with-IsEdit :
    (serial : ℕ) (stage : Stage) (reason : FailReason) (c : FailClock) (s : State)
    → IsEdit s (fail_with serial stage reason c s)
unfolding fail_with
fail_with-IsEdit serial stage reason c s = elim (Bool-cases (fail serial (stage_mask stage) s).0) [
  | inl t ↦ rw t (fail-IsEdit serial (stage_mask stage) s)
  | inr f ↦ rw f (fail-IsEdit serial (stage_mask stage) s)
]

is_transferred_to_lem :
    (i : Intent) (p : Probe)
    → is_transferred_to i p ≡ true
    → i.stage ≡ Stage.authority_probe_transferred
unfolding is_transferred_to
is_transferred_to_lem i p h = is_stage-eq i.stage Stage.authority_probe_transferred (ground arith)

may_rebind_lem :
    (i : Intent) (before after : Probe)
    → may_rebind i before after ≡ true
    → (i.stage ≡ Stage.authority_probe_transferred) × (after.request_nonce ≢ 0)
unfolding may_rebind
may_rebind_lem i before after h =
    (is_stage-eq i.stage Stage.authority_probe_transferred (ground arith), ground arith)

pub retire-IsEdit :
    (p : Probe) (completed : Bool) (now : ℕ) (s : State) → IsEdit s (retire p completed now s).1
unfolding retire
retire-IsEdit p completed now s = elim (Bool-cases (is_transferred_to s.intent p)) [
  | inr f ↦ rw f (stays refl, refl)
  | inl t ↦ rw t (retired completed (is_transferred_to_lem s.intent p t))
]
  where
    retired :
        (b : Bool)
        → s.intent.stage ≡ Stage.authority_probe_transferred
        → IsEdit s (record s {
          intent =
              if b
              then empty_intent
              else record s.intent { stage = Stage.failed; last_log_ms = now };
        })
    retired true e = (ends e refl, refl)
    retired false e = (gives_up now e refl, refl)

pub rebind-IsEdit : (before after : Probe) (s : State) → IsEdit s (rebind before after s)
unfolding rebind
rebind-IsEdit before after s = elim (Bool-cases (may_rebind s.intent before after)) [
  | inr f ↦ rw f (stays refl, refl)
  | inl t ↦
      let (stage, nonce) = may_rebind_lem s.intent before after t in
      rw t (rebinds after.request_nonce stage nonce refl, refl)
]

-- An arming does nothing, or it replaces an intent that is idle or failed.
pub arm-cases :
    (x : ArmInput) (s : State)
    → (arm x s ≡ (none, s))
      ⊎ ((arm x s ≡ (some (next_serial s), armed_state x s))
          × (reject_reason x (identity_of x) ≡ none)
          × (is_active s.intent.stage ≡ false))
unfolding arm
arm-cases x s = elim (Bool-cases (may_arm x s)) [
  | inr f ↦ inl (rw f refl)
  | inl t ↦ let (r, a) = may_arm_lem x s t in inr (rw t refl, r, a)
]
