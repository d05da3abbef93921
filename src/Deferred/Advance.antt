-- ===== src/Deferred/Advance.antt =====
-- `AdvanceDeferredReconnectIntent` of src/reconnect_fix.cpp, which runs on every tick. It acts on a
-- snapshot, and on the state that it finds when it takes the lock.
use revenant_fix.Prelude.{
  ℕ, Bool, true, false, ◌&&◌, ◌||◌, not, List, [], ◌∷◌, leb, ◌==◌, if◌then◌else◌,
}
use revenant_fix.Deferred.{Stage, Intent, RuntimePhase, FailReason, State, is_stage}
use revenant_fix.Deferred.Authority.{elapsed, set_phase, FailClock}
use revenant_fix.Deferred.Cleanup.{fail_with}

-- `kBhrcMasterJoinTimeoutMs`, `kBhrcNativeBOwnerWaitTimeoutMs`, `kBhrcDeferredIntentLogIntervalMs`.
abbrev pub master_join_timeout_ms : ℕ
master_join_timeout_ms = 15000

abbrev pub native_b_owner_wait_timeout_ms : ℕ
native_b_owner_wait_timeout_ms = 30000

abbrev pub log_interval_ms : ℕ
log_interval_ms = 1000

-- What a tick reads, and what `RequestNrscMasterLobbyJoin` would return on it (0 where it fails).
pub record Tick : Type 0 where
  pub now : ℕ
  pub phase_now : ℕ
  pub current_master : ℕ
  pub current_owner : ℕ
  pub is_peer_active : ℕ → Bool
  pub join_lobby : ℕ → ℕ
  pub clock : FailClock

-- `transport_ready`.
unfoldable pub is_transport_ready : Tick → Intent → Bool
is_transport_ready x intent =
    x.current_master == intent.master_lobby_id
    && (x.current_owner == intent.host_steam_id && x.is_peer_active intent.host_steam_id)

abbrev pub is_before_native_b : Stage → Bool
is_before_native_b stage =
    is_stage stage Stage.cleanup_exited || is_stage stage Stage.master_join_requested

-- The locked part where the transport is ready, and the phase where it advanced.
unfoldable pub await_native_b : Tick → Intent → State → State
await_native_b x snapshot s =
    if s.intent.serial == snapshot.serial && is_before_native_b s.intent.stage
    then record s {
      intent = record s.intent {
        stage = Stage.awaiting_native_b;
        last_log_ms = x.now;
        native_b_wait_started_ms = x.now;
      };
      runtime = set_phase RuntimePhase.peer_discovered x.phase_now s.runtime;
    }
    else s

-- The locked part once the join was requested.
unfoldable pub join_requested : Tick → Intent → ℕ → State → State
join_requested x snapshot join_call s =
    if s.intent.serial == snapshot.serial && is_stage s.intent.stage Stage.cleanup_exited
    then record s {
      intent = record s.intent {
        master_join_attempts = 1;
        master_join_requested_ms = x.now;
        master_join_call = join_call;
        stage = Stage.master_join_requested;
      };
    }
    else s

unfoldable pub join_master : Tick → Intent → State → State
join_master x snapshot s =
    if x.join_lobby snapshot.master_lobby_id == 0
    then fail_with snapshot.serial Stage.cleanup_exited FailReason.restore_context_missing x.clock s
    else join_requested x snapshot (x.join_lobby snapshot.master_lobby_id) s

unfoldable pub await_join : Tick → Intent → State → State
await_join x snapshot s =
    if leb master_join_timeout_ms (elapsed x.now snapshot.master_join_requested_ms)
    then fail_with snapshot.serial Stage.master_join_requested FailReason.timeout x.clock s
    else s

-- The line that is logged once in a while is left out, but not its clock.
unfoldable pub log_waiting : Tick → Intent → State → State
log_waiting x snapshot s =
    if leb log_interval_ms (elapsed x.now snapshot.last_log_ms)
      && s.intent.serial == snapshot.serial
    then record s { intent = record s.intent { last_log_ms = x.now } }
    else s

unfoldable pub await_owner : Tick → Intent → State → State
await_owner x snapshot s =
    if not (snapshot.native_b_wait_started_ms == 0)
      && leb native_b_owner_wait_timeout_ms (elapsed x.now snapshot.native_b_wait_started_ms)
    then fail_with snapshot.serial Stage.awaiting_native_b FailReason.timeout x.clock s
    else log_waiting x snapshot s

-- The branches of the function, by the stage of the snapshot.
unfoldable pub advance_at : Stage → Tick → Intent → State → State
advance_at Stage.idle x snapshot s = s
advance_at Stage.armed_reason4 x snapshot s = s
advance_at Stage.cleanup_exited x snapshot s =
    if is_transport_ready x snapshot then await_native_b x snapshot s else join_master x snapshot s
advance_at Stage.master_join_requested x snapshot s =
    if is_transport_ready x snapshot then await_native_b x snapshot s else await_join x snapshot s
advance_at Stage.awaiting_native_b x snapshot s = await_owner x snapshot s
advance_at Stage.authority_probe_transferred x snapshot s = s
advance_at Stage.failed x snapshot s = s

unfoldable pub advance_from : Tick → Intent → State → State
advance_from x snapshot s = advance_at snapshot.stage x snapshot s

-- What the function returns.
unfoldable pub is_advancing : Intent → Bool
is_advancing snapshot = elim snapshot.stage [
  | Stage.idle ↦ false
  | Stage.armed_reason4 ↦ true
  | Stage.cleanup_exited ↦ true
  | Stage.master_join_requested ↦ true
  | Stage.awaiting_native_b ↦ true
  | Stage.authority_probe_transferred ↦ false
  | Stage.failed ↦ false
]

-- The lobbies whose join is requested.
unfoldable pub joins_of : Tick → Intent → List ℕ
joins_of x snapshot =
    if is_stage snapshot.stage Stage.cleanup_exited && not (is_transport_ready x snapshot)
    then snapshot.master_lobby_id ∷ []
    else []

-- `AdvanceDeferredReconnectIntent`, where no other thread comes in between.
unfoldable pub advance : Tick → State → Bool × State
advance x s = (is_advancing s.intent, advance_from x s.intent s)
