-- ===== src/Deferred.antt =====
-- The deferred reconnect of src/reconnect_fix.cpp: its types, which are in src/core.hpp. When the
-- game cleans up a session for reason 4, an intent to come back is armed; it joins the master lobby
-- once, waits for the native owner, and is handed to the probe that asks the host, or fails.
pub mod Authority
pub mod Arm
pub mod Cleanup
pub mod Advance
pub mod Stages
pub mod Edit
pub mod Ticks
pub mod Machine
pub mod Sound
pub mod Fences
pub mod Outcome
pub mod Legal
pub mod Pending
pub mod Once
pub mod Waits
pub mod Timeouts
pub mod Deadline
mod Tests
use revenant_fix.Prelude.{ℕ, Bool, true, false, ℤ, ◌&&◌, ◌||◌, not, ◌==◌}
use revenant_fix.Record.{minus_one}

-- `BhrcDeferredReconnectStage`.
pub data Stage : Type 0 where
  idle armed_reason4 cleanup_exited master_join_requested awaiting_native_b : Stage
  authority_probe_transferred failed : Stage

-- The value of the enumerator.
unfoldable pub stage_code : Stage → ℕ
stage_code idle = 0
stage_code armed_reason4 = 1
stage_code cleanup_exited = 2
stage_code master_join_requested = 3
stage_code awaiting_native_b = 4
stage_code authority_probe_transferred = 5
stage_code failed = 6

-- `BhrcDeferredReconnectIntent`. The cookie is an address.
pub record Intent : Type 0 where
  pub stage : Stage
  pub serial : ℕ
  pub armed_ms : ℕ
  pub cleanup_exited_ms : ℕ
  pub last_log_ms : ℕ
  pub master_join_requested_ms : ℕ
  pub native_b_wait_started_ms : ℕ
  pub master_join_attempts : ℕ
  pub master_join_call : ℕ
  pub cleanup_thread_id : ℕ
  pub cleanup_state_cookie : ℕ
  pub master_lobby_id : ℕ
  pub expedition_lobby_id : ℕ
  pub host_steam_id : ℕ
  pub record_key : ℕ
  pub authority_probe_nonce : ℕ
  pub authority_client_generation : ℕ
  pub authority_identity_hash32 : ℕ

abbrev pub empty_intent : Intent
empty_intent = record {
  stage = Stage.idle;
  serial = 0;
  armed_ms = 0;
  cleanup_exited_ms = 0;
  last_log_ms = 0;
  master_join_requested_ms = 0;
  native_b_wait_started_ms = 0;
  master_join_attempts = 0;
  master_join_call = 0;
  cleanup_thread_id = 0;
  cleanup_state_cookie = 0;
  master_lobby_id = 0;
  expedition_lobby_id = 0;
  host_steam_id = 0;
  record_key = 0;
  authority_probe_nonce = 0;
  authority_client_generation = 0;
  authority_identity_hash32 = 0;
}

-- `BhrcExpeditionProbeStage`.
pub data ProbeStage : Type 0 where
  idle armed join_requested awaiting_peer request_sent starting_requery : ProbeStage
  authorized_returning ordinary_lobby rejected timed_out handed_off completed : ProbeStage

-- `BhrcExpeditionProbeTrigger`.
pub data ProbeTrigger : Type 0 where
  no_trigger startup_previous_session friend_join : ProbeTrigger

abbrev pub is_friend_join : ProbeTrigger → Bool
is_friend_join no_trigger = false
is_friend_join startup_previous_session = false
is_friend_join friend_join = true

-- What is read of `BhrcExpeditionProbeAttempt`.
pub record Probe : Type 0 where
  pub stage : ProbeStage
  pub trigger : ProbeTrigger
  pub request_nonce : ℕ
  pub client_generation : ℕ
  pub identity_hash32 : ℕ
  pub authority_observer_only : Bool
  pub previous_session_owner_only : Bool
  pub master_lobby_id : ℕ
  pub expedition_lobby_id : ℕ
  pub host_steam_id : ℕ
  pub record_key : ℕ

-- `BhrcPhase`.
pub data RuntimePhase : Type 0 where
  idle requesting_transport peer_discovered done failed : RuntimePhase

-- The values of `BhrcRejectReason` that occur here.
pub data FailReason : Type 0 where
  no_error restore_context_missing native_restore_exception timeout : FailReason

-- `BhrcRuntimeState`.
pub record Runtime : Type 0 where
  pub phase : RuntimePhase
  pub last_error : FailReason
  pub request_nonce : ℕ
  pub generation : ℕ
  pub phase_started_ms : ℕ
  pub peer_steam_id : ℕ
  pub lobby_id : ℕ
  pub transport_lobby_id : ℕ
  pub record_key : ℕ
  pub player_index : ℤ
  pub game_data_id : ℤ
  pub party_slot : ℤ
  pub record_hash32 : ℕ
  pub suppressed_team_dialog_valid : Bool
  pub suppressed_failure_prompt_shown : Bool
  pub suppressed_team_dialog_state : ℕ
  pub suppressed_team_dialog_reason : ℕ
  pub suppressed_team_dialog_ms : ℕ

abbrev pub empty_runtime : Runtime
empty_runtime = record {
  phase = RuntimePhase.idle;
  last_error = FailReason.no_error;
  request_nonce = 0;
  generation = 0;
  phase_started_ms = 0;
  peer_steam_id = 0;
  lobby_id = 0;
  transport_lobby_id = 0;
  record_key = 0;
  player_index = minus_one;
  game_data_id = minus_one;
  party_slot = minus_one;
  record_hash32 = 0;
  suppressed_team_dialog_valid = false;
  suppressed_failure_prompt_shown = false;
  suppressed_team_dialog_state = 0;
  suppressed_team_dialog_reason = 0;
  suppressed_team_dialog_ms = 0;
}

-- `g_bhrc_deferred_reconnect`, `g_bhrc_deferred_reconnect_serial` and `g_bhrc`.
pub record State : Type 0 where
  pub intent : Intent
  pub serial_counter : ℕ
  pub runtime : Runtime

-- The comparisons of the source with one stage.
abbrev pub is_stage : Stage → Stage → Bool
is_stage a b = stage_code a == stage_code b
