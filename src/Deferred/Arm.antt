-- ===== src/Deferred/Arm.antt =====
-- `ArmReconnectIntentFromReason4Cleanup` of src/reconnect_fix.cpp.
use revenant_fix.Prelude.{
  ℕ, ◌+◌, ◌%◌, ◌^◌, Bool, true, false, ◌&&◌, ◌||◌, not, Option, none, some, int_eq, is_nonneg, ◌==◌,
  if◌then◌else◌,
}
use revenant_fix.Record.{minus_one, record_role_self}
use revenant_fix.Record.Cache.{Cache}
use revenant_fix.Record.Prefer.{Persisted, Sidecar, prefer}
use revenant_fix.Deferred.{
  Stage, Intent, empty_intent, Probe, RuntimePhase, Runtime, empty_runtime, State, is_stage,
}
use revenant_fix.Deferred.Authority.{owns_reconnect, set_phase}

-- What the function reads elsewhere: the configuration, the probe, the saved lobbies and owner, the
-- identity on disk with its sidecar, the record cache, a fresh nonce, the clock (twice).
pub record ArmInput : Type 0 where
  pub enable_nrsc_steam_control : Bool
  pub probe : Probe
  pub bridge_state : ℕ
  pub persisted : Persisted
  pub cache : Cache
  pub sidecar : Sidecar
  pub saved_master_lobby : ℕ
  pub saved_expedition_lobby : ℕ
  pub local_steam_id : ℕ
  pub last_owner_steam_id : ℕ
  pub nonce : ℕ
  pub now : ℕ
  pub phase_now : ℕ
  pub thread_id : ℕ
  pub cleanup_state : ℕ

-- The `reject_reason` of the source, by its text.
pub data ArmReject : Type 0 where
  missing_persisted_master_lobby_a missing_persisted_expedition_tuple_b : ArmReject
  transport_expedition_lobby_alias missing_old_player_record_key missing_local_steam_id : ArmReject
  missing_native_self_record_identity invalid_self_remote_player_index : ArmReject
  incomplete_old_player_identity local_host expedition_lobby_mismatch : ArmReject
  master_lobby_mismatch missing_observed_master_owner master_owner_mismatch : ArmReject

-- The chain of tests. The lobbies and the host are those of the persisted identity; the rest is
-- what `prefer` left in it.
unfoldable pub reject_reason : ArmInput → Persisted → Option ArmReject
reject_reason x id =
    let master_lobby_id : ℕ = x.persisted.master_lobby_id in
    let expedition_lobby_id : ℕ = x.persisted.lobby_id in
    let host : ℕ = x.persisted.host_steam_id in
    if master_lobby_id == 0
    then some ArmReject.missing_persisted_master_lobby_a
    else if expedition_lobby_id == 0 || host == 0
    then some ArmReject.missing_persisted_expedition_tuple_b
    else if master_lobby_id == expedition_lobby_id
    then some ArmReject.transport_expedition_lobby_alias
    else if id.record_key == 0
    then some ArmReject.missing_old_player_record_key
    else if x.local_steam_id == 0
    then some ArmReject.missing_local_steam_id
    else if not (id.record_role == record_role_self) || not (id.record_key == x.local_steam_id)
    then some ArmReject.missing_native_self_record_identity
    else if not (int_eq id.player_index minus_one)
    then some ArmReject.invalid_self_remote_player_index
    else if not (is_nonneg id.game_data_id)
        || (not (is_nonneg id.party_slot) || id.record_hash32 == 0)
    then some ArmReject.incomplete_old_player_identity
    else if x.local_steam_id == host
    then some ArmReject.local_host
    else if not (x.saved_expedition_lobby == 0)
        && not (x.saved_expedition_lobby == expedition_lobby_id)
    then some ArmReject.expedition_lobby_mismatch
    else if not (x.saved_master_lobby == 0) && not (x.saved_master_lobby == master_lobby_id)
    then some ArmReject.master_lobby_mismatch
    else if x.last_owner_steam_id == 0
    then some ArmReject.missing_observed_master_owner
    else if not (x.last_owner_steam_id == host)
    then some ArmReject.master_owner_mismatch
    else none

-- `*id` after `PreferCachedReconnectIdentityForLocalSteam`.
unfoldable pub identity_of : ArmInput → Persisted
identity_of x = (prefer x.local_steam_id x.cache x.sidecar x.persisted.lobby_id x.persisted).1

-- What the runtime state becomes.
unfoldable pub armed_runtime : ArmInput → Persisted → Runtime
armed_runtime x id = record empty_runtime {
  request_nonce = x.nonce;
  generation = (id.generation + 1) % 2 ^ 32;
  peer_steam_id = x.persisted.host_steam_id;
  lobby_id = x.persisted.lobby_id;
  transport_lobby_id = x.persisted.master_lobby_id;
  record_key = id.record_key;
  player_index = id.player_index;
  game_data_id = id.game_data_id;
  party_slot = id.party_slot;
  record_hash32 = id.record_hash32;
}

-- `InterlockedIncrement64`, as an unsigned number.
abbrev pub next_serial : State → ℕ
next_serial s = (s.serial_counter + 1) % 2 ^ 64

unfoldable pub armed_intent : ArmInput → Persisted → ℕ → Intent
armed_intent x id serial = record empty_intent {
  stage = Stage.armed_reason4;
  serial = serial;
  armed_ms = x.now;
  cleanup_thread_id = x.thread_id;
  cleanup_state_cookie = x.cleanup_state;
  master_lobby_id = x.persisted.master_lobby_id;
  expedition_lobby_id = x.persisted.lobby_id;
  host_steam_id = x.persisted.host_steam_id;
  record_key = id.record_key;
  authority_client_generation = id.generation;
  authority_identity_hash32 = id.record_hash32;
}

-- The state once the intent is armed.
unfoldable pub armed_state : ArmInput → State → State
armed_state x s = record {
  intent = armed_intent x (identity_of x) (next_serial s);
  serial_counter = next_serial s;
  runtime =
      set_phase RuntimePhase.requesting_transport x.phase_now (armed_runtime x (identity_of x));
}

abbrev pub is_phase_busy : RuntimePhase → Bool
is_phase_busy p = elim p [
  | RuntimePhase.idle ↦ false
  | RuntimePhase.failed ↦ false
  | RuntimePhase.done ↦ false
  | _ ↦ true
]

-- `deferred_already_active`.
unfoldable pub is_active : Stage → Bool
is_active stage = not (is_stage stage Stage.idle) && not (is_stage stage Stage.failed)

-- The conditions in the order of the code, up to the one under the lock.
unfoldable pub may_arm : ArmInput → State → Bool
may_arm x s =
    if not x.enable_nrsc_steam_control
    then false
    else if owns_reconnect x.probe
    then false
    else if not (x.bridge_state == 2)
    then false
    else if is_phase_busy s.runtime.phase
    then false
    else elim (reject_reason x (identity_of x)) [
      | some r ↦ false
      | none ↦ not (is_active s.intent.stage)
    ]

-- `ArmReconnectIntentFromReason4Cleanup`: the serial that `*out_serial` gets, `none` where the
-- function returns false (and `*out_serial` is 0), and the state.
unfoldable pub arm : ArmInput → State → Option ℕ × State
arm x s = if may_arm x s then (some (next_serial s), armed_state x s) else (none, s)
