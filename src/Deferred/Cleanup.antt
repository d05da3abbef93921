-- ===== src/Deferred/Cleanup.antt =====
-- What happens to an armed intent in src/reconnect_fix.cpp: `MarkReason4CleanupExited`,
-- `MarkDeferredReconnectTransferredToAuthorityProbe`, `FailDeferredReconnectIntent`, and the detour
-- `HookTeamSessionCleanup` that runs them around the game's own cleanup.
use revenant_fix.Prelude.{
  ℕ, ◌^◌, Bool, true, false, ◌&&◌, ◌||◌, not, Option, none, some, ◌==◌, has_bit, if◌then◌else◌,
}
use revenant_fix.Deferred.{
  Stage, stage_code, Intent, Probe, RuntimePhase, FailReason, State, is_friend_join, is_stage,
}
use revenant_fix.Deferred.Authority.{
  is_exact, is_live_observer, is_finished, is_refused, set_phase, fail_runtime, FailClock,
}
use revenant_fix.Deferred.Arm.{ArmInput, arm}

-- `exact_observer`.
unfoldable pub is_exact_observer : Intent → Probe → Bool
is_exact_observer intent probe =
    probe.authority_observer_only
    && (not probe.previous_session_owner_only
        && (is_friend_join probe.trigger && is_exact intent probe))

-- What the exit makes of the intent: one of the four results of the code.
pub data Exit : Type 0 where
  transferred terminal_completed terminal_failed waiting : Exit

unfoldable pub classify : Intent → Probe → Exit
classify intent probe =
    if is_exact_observer intent probe
    then if is_live_observer probe
      then Exit.transferred
      else if is_finished probe.stage
      then Exit.terminal_completed
      else if is_refused probe.stage
      then Exit.terminal_failed
      else Exit.waiting
    else Exit.waiting

abbrev pub exit_stage : Exit → Stage
exit_stage transferred = Stage.authority_probe_transferred
exit_stage terminal_completed = Stage.idle
exit_stage terminal_failed = Stage.failed
exit_stage waiting = Stage.cleanup_exited

-- The authority fields, which are written unless the intent goes on waiting.
unfoldable pub adopt : Probe → Intent → Intent
adopt probe intent = record intent {
  authority_probe_nonce = probe.request_nonce;
  authority_client_generation = probe.client_generation;
  authority_identity_hash32 = probe.identity_hash32;
}

unfoldable pub exited_intent : Probe → ℕ → Exit → Intent → Intent
exited_intent probe now waiting intent = record intent {
  stage = exit_stage Exit.waiting;
  cleanup_exited_ms = now;
}
exited_intent probe now e intent = record (adopt probe intent) {
  stage = exit_stage e;
  cleanup_exited_ms = now;
}

unfoldable pub exit_phase : Exit → Option RuntimePhase
exit_phase transferred = some RuntimePhase.done
exit_phase terminal_completed = some RuntimePhase.done
exit_phase terminal_failed = some RuntimePhase.failed
exit_phase waiting = none

unfoldable pub exited : Probe → ℕ → ℕ → Exit → State → State
exited probe now phase_now e s = record s {
  intent = exited_intent probe now e s.intent;
  runtime = elim (exit_phase e) [ none ↦ s.runtime | some p ↦ set_phase p phase_now s.runtime ];
}

-- `MarkReason4CleanupExited`; `phase_now` is the clock of `BhrcSetPhase`.
unfoldable pub mark_exited : ℕ → Probe → ℕ → ℕ → State → Bool × State
mark_exited serial probe now phase_now s =
    if not (serial == 0)
      && (s.intent.serial == serial && is_stage s.intent.stage Stage.armed_reason4)
    then (true, exited probe now phase_now (classify s.intent probe) s)
    else (false, s)

-- The guard of `MarkDeferredReconnectTransferredToAuthorityProbe`: `current` is the probe under the
-- lock, `probe` the caller's.
unfoldable pub may_transfer : ℕ → Probe → Probe → Intent → Bool
may_transfer serial probe current intent =
    not (serial == 0)
    && (intent.serial == serial
        && (current.request_nonce == probe.request_nonce
            && (is_live_observer current
                && (is_exact intent current
                    && (is_stage intent.stage Stage.master_join_requested
                        || is_stage intent.stage Stage.awaiting_native_b)))))

-- `MarkDeferredReconnectTransferredToAuthorityProbe`.
unfoldable pub mark_transferred : ℕ → Probe → Probe → ℕ → State → Bool × State
mark_transferred serial probe current phase_now s =
    if may_transfer serial probe current s.intent
    then (
      true,
      record s {
        intent = record (adopt current s.intent) { stage = Stage.authority_probe_transferred };
        runtime = set_phase RuntimePhase.done phase_now s.runtime;
      },
    )
    else (false, s)

-- `BhrcDeferredReconnectStageMask`.
unfoldable pub stage_mask : Stage → ℕ
stage_mask stage = 2 ^ stage_code stage

-- `FailDeferredReconnectIntent`. The test is `(mask & BhrcDeferredReconnectStageMask(observed)) != 0`.
unfoldable pub fail : ℕ → ℕ → State → Bool × State
fail serial mask s =
    if not (serial == 0)
      && (s.intent.serial == serial
          && (has_bit mask (stage_code s.intent.stage)
              && (not (is_stage s.intent.stage Stage.authority_probe_transferred)
                  && not (is_stage s.intent.stage Stage.idle))))
    then (true, record s { intent = record s.intent { stage = Stage.failed } })
    else (false, s)

-- `FailDeferredReconnectIntent`, and `BhrcFail` where it changed the intent.
unfoldable pub fail_with : ℕ → Stage → FailReason → FailClock → State → State
fail_with serial stage reason c s =
    if (fail serial (stage_mask stage) s).0
    then record (fail serial (stage_mask stage) s).1 {
      runtime = fail_runtime reason c (fail serial (stage_mask stage) s).1.runtime;
    }
    else (fail serial (stage_mask stage) s).1

-- What the game's own cleanup does, with the state that it leaves behind: the detour finds no
-- function to call, or the call raises an exception, or it returns.
pub data Original : Type 0 where
  missing : Original
  raised : State → Original
  returned : State → Original

-- What the detour reads after the original function.
pub record ExitInput : Type 0 where
  pub probe : Probe
  pub now : ℕ
  pub phase_now : ℕ
  pub clock : FailClock

-- The state that the original function leaves behind.
unfoldable pub left_by : Original → State → State
left_by Original.missing s = s
left_by (Original.raised t) s = t
left_by (Original.returned t) s = t

-- `HookTeamSessionCleanup` for the reason 4, where an intent was armed with a serial, from where the
-- original function is called.
unfoldable pub cleanup_armed : ℕ → Original → ExitInput → State → State
cleanup_armed serial Original.missing y s =
    fail_with serial Stage.armed_reason4 FailReason.restore_context_missing y.clock s
cleanup_armed serial (Original.raised t) y s =
    fail_with serial Stage.armed_reason4 FailReason.native_restore_exception y.clock t
cleanup_armed serial (Original.returned t) y s =
    if (mark_exited serial y.probe y.now y.phase_now t).0
    then (mark_exited serial y.probe y.now y.phase_now t).1
    else fail_with serial Stage.armed_reason4 FailReason.restore_context_missing y.clock
        (mark_exited serial y.probe y.now y.phase_now t).1

-- `HookTeamSessionCleanup` for the reason 4; the original function acts on the armed state.
unfoldable pub cleanup : ArmInput → (State → Original) → ExitInput → State → State
cleanup x original y s = elim (arm x s).0 [
  | none ↦ left_by (original (arm x s).1) (arm x s).1
  | some serial ↦ cleanup_armed serial (original (arm x s).1) y (arm x s).1
]
