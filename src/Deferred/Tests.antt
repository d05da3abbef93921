-- ===== src/Deferred/Tests.antt =====
-- Runs of the deferred reconnect, and instances of its theorems.
use revenant_fix.Prelude.{
  ℕ, ◌≡◌, ◌≤◌, refl, true, false, some, [], ◌∷◌, ◌++◌, arith, count, find_index, pos,
}
use revenant_fix.Record.{empty_entry, minus_one}
use revenant_fix.Record.Cache.{find_active, find_inactive, find_cached}
use revenant_fix.Record.Prefer.{
  is_complete, prefer, prefer_entry, is_exact, lobby_mismatch, differs,
}
use revenant_fix.Deferred.{
  Stage, stage_code, Intent, empty_intent, ProbeStage, ProbeTrigger, Probe, RuntimePhase,
  FailReason, Runtime, empty_runtime, State,
}
use revenant_fix.Deferred.Authority.{
  FailClock, is_pending, is_live_observer, owns_reconnect, set_phase, replay_prompt, fail_runtime,
  is_transferred_to, retire, may_rebind, rebind,
}
use revenant_fix.Deferred.Arm.{
  ArmInput, reject_reason, identity_of, armed_runtime, armed_intent, armed_state, is_active,
  may_arm, arm,
}
use revenant_fix.Deferred.Cleanup.{
  is_exact_observer, classify, adopt, exited_intent, exit_phase, exited, mark_exited, may_transfer,
  mark_transferred, stage_mask, fail, fail_with, Original, ExitInput, left_by, cleanup_armed,
  cleanup,
}
use revenant_fix.Deferred.Advance.{
  Tick, is_transport_ready, await_native_b, join_requested, join_master, await_join, log_waiting,
  await_owner, advance_at, advance_from, is_advancing, joins_of, advance,
}
use revenant_fix.Deferred.Machine.{Run, here, act, arm_next, tick, exit, transfer}
use revenant_fix.Deferred.Sound.{IsSound, Run-IsSound}
use revenant_fix.Deferred.Legal.{Trail, visited, view, Run-refines}
use revenant_fix.Deferred.Once.{of_serial, Run-joins}
use revenant_fix.Deferred.Fences.{dead_serial}
use revenant_fix.Deferred.Outcome.{retire-mark_transferred, outcome_of, cleanup_lem}
use revenant_fix.Deferred.Deadline.{run, run-fails}

program : Unit {0}
unfolding is_pending is_live_observer owns_reconnect set_phase replay_prompt fail_runtime
    is_transferred_to retire may_rebind rebind reject_reason identity_of armed_runtime armed_intent
    armed_state is_active may_arm arm is_exact_observer classify adopt exited_intent exit_phase
    exited mark_exited may_transfer mark_transferred stage_mask fail fail_with left_by cleanup_armed
    cleanup is_transport_ready await_native_b join_requested join_master await_join log_waiting
    await_owner advance_at advance_from is_advancing joins_of advance stage_code prefer prefer_entry
    find_cached find_active find_inactive find_index is_complete is_exact lobby_mismatch differs
    revenant_fix.Deferred.Authority.is_exact run
program = tt

abbrev no_probe : Probe
no_probe = record {
  stage = ProbeStage.idle;
  trigger = ProbeTrigger.no_trigger;
  request_nonce = 0;
  client_generation = 0;
  identity_hash32 = 0;
  authority_observer_only = false;
  previous_session_owner_only = false;
  master_lobby_id = 0;
  expedition_lobby_id = 0;
  host_steam_id = 0;
  record_key = 0;
}

abbrev observer : Probe
observer = record {
  stage = ProbeStage.request_sent;
  trigger = ProbeTrigger.friend_join;
  request_nonce = 77;
  client_generation = 6;
  identity_hash32 = 98;
  authority_observer_only = true;
  previous_session_owner_only = false;
  master_lobby_id = 40;
  expedition_lobby_id = 30;
  host_steam_id = 20;
  record_key = 11;
}

abbrev input : ArmInput
input = record {
  enable_nrsc_steam_control = true;
  probe = no_probe;
  bridge_state = 2;
  persisted = record {
    record_key = 11;
    player_index = minus_one;
    game_data_id = pos 3;
    party_slot = pos 0;
    record_hash32 = 98;
    generation = 6;
    host_steam_id = 20;
    lobby_id = 30;
    master_lobby_id = 40;
    record_role = 1;
  };
  cache = record { active = empty_entry ∷ []; inactive = empty_entry ∷ []; generation = 0 };
  sidecar = record {
    valid = false;
    master_lobby_id = 0;
    expedition_lobby_id = 0;
    host_steam_id = 0;
    record_key = 0;
    client_generation = 0;
    identity_hash32 = 0;
  };
  saved_master_lobby = 40;
  saved_expedition_lobby = 30;
  local_steam_id = 11;
  last_owner_steam_id = 20;
  nonce = 5;
  now = 1000;
  phase_now = 1001;
  thread_id = 3;
  cleanup_state = 4096;
}

abbrev start : State
start = record { intent = empty_intent; serial_counter = 8; runtime = empty_runtime }

abbrev clock : FailClock
clock = record { is_local_host = false; now = 7; replay_now = 8 }

abbrev tick_at : ℕ → Tick
tick_at now = record {
  now = now;
  phase_now = now;
  current_master = 0;
  current_owner = 0;
  is_peer_active = λ peer. false;
  join_lobby = λ lobby. 900;
  clock = clock;
}

abbrev exits_at : ExitInput
exits_at = record { probe = no_probe; now = 1100; phase_now = 1100; clock = clock }

abbrev waiting_state : State
waiting_state = cleanup input (λ s. Original.returned s) exits_at start

run_arm : ((arm input start).0 ≡ some 9) × (waiting_state.intent.stage ≡ Stage.cleanup_exited)
unfolding program
run_arm = (refl, refl)

run_join : (advance (tick_at 1200) waiting_state).1.intent.master_join_call ≡ 900
unfolding program
run_join = refl

abbrev armed_at : State
armed_at = (arm input start).1

abbrev left_at : State
left_at = (mark_exited 9 no_probe 1100 1100 armed_at).1

abbrev joined_at : State
joined_at = (advance (tick_at 1200) left_at).1

abbrev transferred_at : State
transferred_at = (mark_transferred 9 observer observer 1300 joined_at).1

-- From the start over the exit and the join to the transfer.
abbrev journey : Run start 1 (9 ∷ []) transferred_at
unfolding program
journey =
    act (tick (act (arm_next here input) (exit 9 no_probe 1100 1100 refl)) (tick_at 1200))
      (transfer 9 observer observer 1300 refl)

Run-IsSound_example : IsSound transferred_at.intent
Run-IsSound_example = Run-IsSound journey tt

Run-refines_example : Trail (view start) (view transferred_at) (visited journey)
Run-refines_example = Run-refines journey

Run-joins_example : count (of_serial 9) (9 ∷ []) ≤ 1
Run-joins_example = Run-joins 9 (λ e. omega arith) journey (omega arith) (omega arith)

dead_serial_example :
    ((p : Probe) (now phase_now : ℕ) → mark_exited 8 p now phase_now left_at ≡ (false, left_at))
    × ((p current : Probe) (phase_now : ℕ)
        → mark_transferred 8 p current phase_now left_at ≡ (false, left_at))
    × ((mask : ℕ) → fail 8 mask left_at ≡ (false, left_at))
unfolding program
dead_serial_example =
    dead_serial start 8 input 9 refl (λ e. omega arith) (omega arith) (omega arith)
      (act here (exit 9 no_probe 1100 1100 refl))

retire-mark_transferred_example :
    ((retire observer true 1400 transferred_at).1.intent ≡ empty_intent)
    × ((retire observer false 1400 transferred_at).1.intent.stage ≡ Stage.failed)
    × (retire no_probe true 1400 transferred_at ≡ (false, transferred_at))
unfolding program
retire-mark_transferred_example =
    retire-mark_transferred 9 observer observer no_probe 1300 1400 true joined_at refl
      (λ e. omega arith)

cleanup_lem_example :
    waiting_state.intent.stage
    ≡ outcome_of (arm input start).1.intent no_probe (Original.returned (arm input start).1)
unfolding program
cleanup_lem_example =
    cleanup_lem input (λ s. Original.returned s) exits_at start 9 refl (λ e. omega arith) refl

run-fails_example :
    (run
      (tick_at 1200 ∷ (tick_at 1300 ∷ []) ++ (tick_at 16200 ∷ ([] ++ (tick_at 46200 ∷ []))))
      left_at).intent.stage
    ≡ Stage.failed
unfolding program
run-fails_example =
    run-fails left_at (tick_at 1200) (tick_at 16200) (tick_at 46200) (tick_at 1300 ∷ []) []
      (λ e. omega arith) refl (omega arith) (omega arith, omega arith) (omega arith) (omega arith)
      (omega arith)
