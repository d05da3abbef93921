-- ===== src/Deferred/Authority.antt =====
-- The intent and the probe that takes it over, in src/reconnect_fix.cpp:
-- `IsBhrcDeferredIntentExactForProbe`, `IsBhrcLiveFriendJoinAuthorityObserver`,
-- `RetireBhrcDeferredAuthorityTransfer`, `RebindBhrcDeferredAuthorityTransfer`, and the phase of the
-- runtime state (`BhrcSetPhase`, `BhrcFail`).
use revenant_fix.Prelude.{
  ℕ, ◌+◌, ◌-◌, ◌%◌, ◌^◌, Bool, true, false, ◌&&◌, ◌||◌, not, ltb, ◌==◌, if◌then◌else◌,
}
use revenant_fix.Deferred.{
  Stage, Intent, empty_intent, ProbeStage, ProbeTrigger, Probe, is_friend_join, RuntimePhase,
  FailReason, Runtime, State, is_stage,
}

-- The difference of two readings of a 32-bit clock.
abbrev pub elapsed : ℕ → ℕ → ℕ
elapsed now start = (now + (2 ^ 32 - start % 2 ^ 32)) % 2 ^ 32

-- `IsBhrcExpeditionProbePendingStage`.
unfoldable pub is_pending : ProbeStage → Bool
is_pending ProbeStage.idle = false
is_pending ProbeStage.armed = true
is_pending ProbeStage.join_requested = true
is_pending ProbeStage.awaiting_peer = true
is_pending ProbeStage.request_sent = true
is_pending ProbeStage.starting_requery = true
is_pending ProbeStage.authorized_returning = false
is_pending ProbeStage.ordinary_lobby = false
is_pending ProbeStage.rejected = false
is_pending ProbeStage.timed_out = false
is_pending ProbeStage.handed_off = false
is_pending ProbeStage.completed = false

abbrev pub is_authorized_returning : ProbeStage → Bool
is_authorized_returning s = elim s [ ProbeStage.authorized_returning ↦ true | _ ↦ false ]

abbrev pub is_handed_off : ProbeStage → Bool
is_handed_off s = elim s [ ProbeStage.handed_off ↦ true | _ ↦ false ]

abbrev pub is_finished : ProbeStage → Bool
is_finished s = elim s [
  | ProbeStage.ordinary_lobby ↦ true
  | ProbeStage.completed ↦ true
  | _ ↦ false
]

abbrev pub is_refused : ProbeStage → Bool
is_refused s = elim s [ ProbeStage.rejected ↦ true | ProbeStage.timed_out ↦ true | _ ↦ false ]

-- `IsBhrcDeferredIntentExactForProbe`.
unfoldable pub is_exact : Intent → Probe → Bool
is_exact intent probe =
    not (intent.serial == 0)
    && (is_friend_join probe.trigger
        && (not (probe.request_nonce == 0)
            && (intent.master_lobby_id == probe.master_lobby_id
                && (intent.expedition_lobby_id == probe.expedition_lobby_id
                    && (intent.host_steam_id == probe.host_steam_id
                        && (intent.record_key == probe.record_key
                            && (not (intent.authority_client_generation == 0)
                                && (intent.authority_client_generation == probe.client_generation
                                    && (not (intent.authority_identity_hash32 == 0)
                                        && intent.authority_identity_hash32
                                          == probe.identity_hash32)))))))))

-- `IsBhrcLiveFriendJoinAuthorityObserver`.
unfoldable pub is_live_observer : Probe → Bool
is_live_observer probe =
    probe.authority_observer_only
    && (not probe.previous_session_owner_only
        && (is_friend_join probe.trigger
            && (not (probe.request_nonce == 0)
                && (is_pending probe.stage || is_authorized_returning probe.stage))))

-- `BhrcExpeditionProbeOwnsReconnect`.
unfoldable pub owns_reconnect : Probe → Bool
owns_reconnect probe =
    not probe.authority_observer_only
    && (not (elim probe.trigger [ ProbeTrigger.no_trigger ↦ true | _ ↦ false ])
        && (is_pending probe.stage
            || (is_authorized_returning probe.stage || is_handed_off probe.stage)))

-- `BhrcSetPhase`.
unfoldable pub set_phase : RuntimePhase → ℕ → Runtime → Runtime
set_phase phase now r = record r { phase = phase; phase_started_ms = now }

-- What `BhrcFail` reads: whether the local player is the host, and the clock, twice.
pub record FailClock : Type 0 where
  pub is_local_host : Bool
  pub now : ℕ
  pub replay_now : ℕ

-- `ReplaySuppressedMatchedPlayersUiAfterReconnectFailure`, without the native prompt.
unfoldable pub replay_prompt : FailClock → Runtime → Runtime
replay_prompt c r =
    if c.is_local_host
      || (not r.suppressed_team_dialog_valid
          || (r.suppressed_failure_prompt_shown || r.suppressed_team_dialog_reason == 0))
    then r
    else if ltb 60000 (elapsed c.replay_now r.suppressed_team_dialog_ms)
    then r
    else record r { suppressed_failure_prompt_shown = true }

-- `BhrcFail`.
unfoldable pub fail_runtime : FailReason → FailClock → Runtime → Runtime
fail_runtime reason c r =
    replay_prompt c
      (record r { last_error = reason; phase = RuntimePhase.failed; phase_started_ms = c.now })

-- The guard of `RetireBhrcDeferredAuthorityTransfer`.
unfoldable pub is_transferred_to : Intent → Probe → Bool
is_transferred_to intent probe =
    is_stage intent.stage Stage.authority_probe_transferred
    && ((not (intent.authority_probe_nonce == 0)
          && intent.authority_probe_nonce == probe.request_nonce)
        && is_exact intent probe)

-- `RetireBhrcDeferredAuthorityTransfer`: whether it changed the intent, and the state.
unfoldable pub retire : Probe → Bool → ℕ → State → Bool × State
retire probe completed now s =
    if is_transferred_to s.intent probe
    then (
      true,
      record s {
        intent =
            if completed
            then empty_intent
            else record s.intent { stage = Stage.failed; last_log_ms = now };
      },
    )
    else (false, s)

-- The guard of `RebindBhrcDeferredAuthorityTransfer`.
unfoldable pub may_rebind : Intent → Probe → Probe → Bool
may_rebind intent before after =
    is_stage intent.stage Stage.authority_probe_transferred
    && (intent.authority_probe_nonce == before.request_nonce
        && (is_exact intent before
            && (before.master_lobby_id == after.master_lobby_id
                && (before.expedition_lobby_id == after.expedition_lobby_id
                    && (before.host_steam_id == after.host_steam_id
                        && (before.record_key == after.record_key
                            && (before.client_generation == after.client_generation
                                && (before.identity_hash32 == after.identity_hash32
                                    && not (after.request_nonce == 0)))))))))

-- `RebindBhrcDeferredAuthorityTransfer`.
unfoldable pub rebind : Probe → Probe → State → State
rebind before after s =
    if may_rebind s.intent before after
    then record s { intent = record s.intent { authority_probe_nonce = after.request_nonce } }
    else s
