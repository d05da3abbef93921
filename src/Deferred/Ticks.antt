-- ===== src/Deferred/Ticks.antt =====
-- The same for the parts of `AdvanceDeferredReconnectIntent` of src/reconnect_fix.cpp.
use revenant_fix.Prelude.{
  ℕ, ◌≡◌, ◌≢◌, ◌⊎◌, inl, inr, refl, Bool, true, false, ◌&&◌, not, ◌==◌, arith, Bool-cases, leb,
  if◌then◌else◌,
}
use revenant_fix.Deferred.{Stage, Intent, FailReason, State, is_stage}
use revenant_fix.Deferred.Authority.{elapsed}
use revenant_fix.Deferred.Advance.{
  Tick, await_native_b, join_requested, join_master, await_join, log_waiting, await_owner,
  advance_at, advance_from, is_transport_ready, is_before_native_b, log_interval_ms,
  master_join_timeout_ms, native_b_owner_wait_timeout_ms,
}
use revenant_fix.Deferred.Stages.{is_stage-eq, and-true}
use revenant_fix.Deferred.Edit.{stays, awaits, joins, logs, IsEdit, fail_with-IsEdit}

stage_before :
    (i : Intent)
    → is_before_native_b i.stage ≡ true
    → (i.stage ≡ Stage.cleanup_exited) ⊎ (i.stage ≡ Stage.master_join_requested)
stage_before i h = elim (Bool-cases (is_stage i.stage Stage.cleanup_exited)) [
  | inl t ↦ inl (is_stage-eq i.stage Stage.cleanup_exited t)
  | inr f ↦ inr (is_stage-eq i.stage Stage.master_join_requested (ground arith))
]

await_native_b-IsEdit : (x : Tick) (i : Intent) (s : State) → IsEdit s (await_native_b x i s)
unfolding await_native_b
await_native_b-IsEdit x i s =
    elim (Bool-cases (s.intent.serial == i.serial && is_before_native_b s.intent.stage)) [
      | inl t ↦ rw t (
        awaits x.now
            (stage_before s.intent
              (and-true (s.intent.serial == i.serial) (is_before_native_b s.intent.stage) t).1)
            refl,
        refl,
      )
      | inr f ↦ rw f (stays refl, refl)
    ]

join_requested-IsEdit :
    (x : Tick) (i : Intent) (call : ℕ) (s : State) → call ≢ 0 → IsEdit s (join_requested x i call s)
unfolding join_requested
join_requested-IsEdit x i call s h =
    elim (Bool-cases
      (s.intent.serial == i.serial && is_stage s.intent.stage Stage.cleanup_exited)) [
        | inl t ↦ rw t (
          joins x.now call (is_stage-eq s.intent.stage Stage.cleanup_exited (ground arith)) h refl,
          refl,
        )
        | inr f ↦ rw f (stays refl, refl)
      ]

join_master-IsEdit : (x : Tick) (i : Intent) (s : State) → IsEdit s (join_master x i s)
unfolding join_master
join_master-IsEdit x i s = elim (Bool-cases (x.join_lobby i.master_lobby_id == 0)) [
  | inl t ↦
      rw t (
        fail_with-IsEdit i.serial Stage.cleanup_exited FailReason.restore_context_missing x.clock s)
  | inr f ↦ rw f (join_requested-IsEdit x i (x.join_lobby i.master_lobby_id) s (ground arith))
]

await_join-IsEdit : (x : Tick) (i : Intent) (s : State) → IsEdit s (await_join x i s)
unfolding await_join
await_join-IsEdit x i s =
    elim (Bool-cases (leb master_join_timeout_ms (elapsed x.now i.master_join_requested_ms))) [
      | inl t ↦
          rw t (fail_with-IsEdit i.serial Stage.master_join_requested FailReason.timeout x.clock s)
      | inr f ↦ rw f (stays refl, refl)
    ]

log_waiting-IsEdit : (x : Tick) (i : Intent) (s : State) → IsEdit s (log_waiting x i s)
unfolding log_waiting
log_waiting-IsEdit x i s =
    elim (Bool-cases
      (leb log_interval_ms (elapsed x.now i.last_log_ms) && s.intent.serial == i.serial)) [
        | inl t ↦ rw t (logs x.now refl, refl)
        | inr f ↦ rw f (stays refl, refl)
      ]

await_owner-IsEdit : (x : Tick) (i : Intent) (s : State) → IsEdit s (await_owner x i s)
unfolding await_owner
await_owner-IsEdit x i s =
    elim (Bool-cases (
      not (i.native_b_wait_started_ms == 0)
      && leb native_b_owner_wait_timeout_ms (elapsed x.now i.native_b_wait_started_ms))) [
        | inl t ↦
            rw t (fail_with-IsEdit i.serial Stage.awaiting_native_b FailReason.timeout x.clock s)
        | inr f ↦ rw f (log_waiting-IsEdit x i s)
      ]

ready-IsEdit : (s a b : State) (c : Bool) → IsEdit s a → IsEdit s b → IsEdit s (if c then a else b)
ready-IsEdit s a b true h k = h
ready-IsEdit s a b false h k = k

advance_at-IsEdit :
    (stage : Stage) (x : Tick) (i : Intent) (s : State) → IsEdit s (advance_at stage x i s)
unfolding advance_at
advance_at-IsEdit Stage.idle x i s = (stays refl, refl)
advance_at-IsEdit Stage.armed_reason4 x i s = (stays refl, refl)
advance_at-IsEdit Stage.cleanup_exited x i s =
    ready-IsEdit s (await_native_b x i s) (join_master x i s) (is_transport_ready x i)
      (await_native_b-IsEdit x i s) (join_master-IsEdit x i s)
advance_at-IsEdit Stage.master_join_requested x i s =
    ready-IsEdit s (await_native_b x i s) (await_join x i s) (is_transport_ready x i)
      (await_native_b-IsEdit x i s) (await_join-IsEdit x i s)
advance_at-IsEdit Stage.awaiting_native_b x i s = await_owner-IsEdit x i s
advance_at-IsEdit Stage.authority_probe_transferred x i s = (stays refl, refl)
advance_at-IsEdit Stage.failed x i s = (stays refl, refl)

-- A tick that acts on any snapshot, also on one that is out of date.
pub advance_from-IsEdit : (x : Tick) (i : Intent) (s : State) → IsEdit s (advance_from x i s)
unfolding advance_from
advance_from-IsEdit x i s = advance_at-IsEdit i.stage x i s
