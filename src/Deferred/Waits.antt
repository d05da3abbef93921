-- ===== src/Deferred/Waits.antt =====
-- Where an intent can be after a tick of `AdvanceDeferredReconnectIntent` of src/reconnect_fix.cpp.
use revenant_fix.Prelude.{
  ℕ, ◌-◌, ◌<◌, ◌≤◌, ◌^◌, ◌≡◌, ◌≢◌, ◌⊎◌, inl, inr, refl, sym, ap, subst, true, ◌&&◌, leb, ◌==◌,
  arith, Bool-cases,
}
use revenant_fix.Deferred.{Stage, stage_code, Intent, FailReason, State, is_stage}
use revenant_fix.Deferred.Authority.{elapsed}
use revenant_fix.Deferred.Cleanup.{fail_with}
use revenant_fix.Deferred.Advance.{
  Tick, advance, advance_at, advance_from, await_native_b, join_master, join_requested, log_waiting,
  is_transport_ready, is_before_native_b, log_interval_ms,
}
use revenant_fix.Deferred.Pending.{fail_with_lem}

-- The intent waits for the owner, since a time that is not 0 and not after `waited`, or has failed.
pub data Owns (waited : ℕ) (i : Intent) : Type 0 where
  owner :
      i.serial ≢ 0
      → i.stage ≡ Stage.awaiting_native_b
      → 1 ≤ i.native_b_wait_started_ms
      → i.native_b_wait_started_ms ≤ waited
      → Owns waited i
  over : i.stage ≡ Stage.failed → Owns waited i

-- Or it is still in front of a join that was requested by `joined`.
pub data Waits (joined : ℕ) (waited : ℕ) (i : Intent) : Type 0 where
  joining :
      i.serial ≢ 0
      → i.stage ≡ Stage.master_join_requested
      → i.master_join_requested_ms ≤ joined
      → Waits joined waited i
  past : Owns waited i → Waits joined waited i

own_test :
    (k : ℕ) (stage : Stage)
    → stage ≡ Stage.cleanup_exited
    → (k == k && is_stage stage Stage.cleanup_exited) ≡ true
unfolding stage_code
own_test k stage e = rw e (ground arith)

own_before :
    (k : ℕ) (stage : Stage)
    → (stage ≡ Stage.cleanup_exited) ⊎ (stage ≡ Stage.master_join_requested)
    → (k == k && is_before_native_b stage) ≡ true
unfolding stage_code
own_before k stage (inl e) = rw e (ground arith)
own_before k stage (inr e) = rw e (ground arith)

pub fails_own :
    (stage : Stage) (reason : FailReason) (x : Tick) (s : State) (waited : ℕ)
    → s.intent.serial ≢ 0
    → s.intent.stage ≡ stage
    → stage ≢ Stage.idle
    → stage ≢ Stage.authority_probe_transferred
    → Owns waited (fail_with s.intent.serial stage reason x.clock s).intent
fails_own stage reason x s waited h st n1 n2 =
    over (ap Intent.stage (fail_with_lem stage reason x.clock s h st n1 n2))

-- A transport that is ready, from either stage in front of it.
pub await_native_b_lem :
    (x : Tick) (s : State)
    → s.intent.serial ≢ 0
    → (s.intent.stage ≡ Stage.cleanup_exited) ⊎ (s.intent.stage ≡ Stage.master_join_requested)
    → 1 ≤ x.now
    → Owns x.now (await_native_b x s.intent s).intent
unfolding await_native_b
await_native_b_lem x s h st pos =
    rw (own_before s.intent.serial s.intent.stage st) (owner h refl pos (omega arith))

join_master_lem :
    (x : Tick) (s : State)
    → s.intent.serial ≢ 0
    → s.intent.stage ≡ Stage.cleanup_exited
    → Waits x.now x.now (join_master x s.intent s).intent
unfolding join_master join_requested
join_master_lem x s h st = elim (Bool-cases (x.join_lobby s.intent.master_lobby_id == 0)) [
  | inl t ↦ rw t (
      past (
        fails_own Stage.cleanup_exited FailReason.restore_context_missing x s x.now h st (λ z. cc)
          (λ z. cc)))
  | inr f ↦ rw (f, own_test s.intent.serial s.intent.stage st) (joining h refl (omega arith))
]

-- The first tick after the cleanup.
pub tick_first :
    (x : Tick) (s : State)
    → s.intent.serial ≢ 0
    → s.intent.stage ≡ Stage.cleanup_exited
    → 1 ≤ x.now
    → Waits x.now x.now (advance x s).1.intent
unfolding advance advance_from advance_at
tick_first x s h st pos =
    subst (λ stage. Waits x.now x.now (advance_at stage x s.intent s).intent) (sym st)
      (elim (Bool-cases (is_transport_ready x s.intent)) [
        | inl t ↦ rw t (past (await_native_b_lem x s h (inl st) pos))
        | inr f ↦ rw f (join_master_lem x s h st)
      ])

pub elapsed_lem : (now start : ℕ) → start ≤ now → now < 2 ^ 32 → elapsed now start ≡ now - start
elapsed_lem now start h k = omega arith

pub log_waiting_lem :
    (x : Tick) (s : State) (waited : ℕ)
    → Owns waited s.intent
    → Owns waited (log_waiting x s.intent s).intent
unfolding log_waiting
log_waiting_lem x s waited h =
    elim (Bool-cases (
      leb log_interval_ms (elapsed x.now s.intent.last_log_ms)
      && s.intent.serial == s.intent.serial)) [
        | inr f ↦ rw f h
        | inl t ↦ rw t (elim h [ owner n st pos le ↦ owner n st pos le | over st ↦ over st ])
      ]
