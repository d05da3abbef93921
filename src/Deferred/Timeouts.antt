-- ===== src/Deferred/Timeouts.antt =====
-- The two timeouts of `AdvanceDeferredReconnectIntent` of src/reconnect_fix.cpp.
use revenant_fix.Prelude.{
  ℕ, ◌+◌, ◌<◌, ◌≤◌, ◌^◌, ◌≡◌, ◌≢◌, inl, inr, sym, ap, subst, true, ◌&&◌, not, leb, ◌==◌, arith,
  Bool-cases,
}
use revenant_fix.Deferred.{Stage, Intent, FailReason, State}
use revenant_fix.Deferred.Authority.{elapsed}
use revenant_fix.Deferred.Advance.{
  Tick, advance, advance_at, advance_from, await_join, await_owner, is_transport_ready,
  master_join_timeout_ms, native_b_owner_wait_timeout_ms,
}
use revenant_fix.Deferred.Pending.{fail_with_lem}
use revenant_fix.Deferred.Waits.{
  Owns, owner, over, Waits, joining, past, fails_own, await_native_b_lem, elapsed_lem,
  log_waiting_lem,
}

-- A tick that finds the intent in front of the join.
await_join_lem :
    (x : Tick) (s : State) (joined : ℕ)
    → s.intent.serial ≢ 0
    → s.intent.stage ≡ Stage.master_join_requested
    → s.intent.master_join_requested_ms ≤ joined
    → Waits joined x.now (await_join x s.intent s).intent
unfolding await_join
await_join_lem x s joined h st le =
    elim (Bool-cases
      (leb master_join_timeout_ms (elapsed x.now s.intent.master_join_requested_ms))) [
        | inr f ↦ rw f (joining h st le)
        | inl t ↦ rw t (
            past (
              fails_own Stage.master_join_requested FailReason.timeout x s x.now h st (λ z. cc)
                (λ z. cc)))
      ]

await_join_late :
    (x : Tick) (s : State) (joined : ℕ)
    → s.intent.serial ≢ 0
    → s.intent.stage ≡ Stage.master_join_requested
    → s.intent.master_join_requested_ms ≤ joined
    → joined + master_join_timeout_ms ≤ x.now
    → x.now < 2 ^ 32
    → Owns x.now (await_join x s.intent s).intent
unfolding await_join
await_join_late x s joined h st le late c =
    let e = elapsed_lem x.now s.intent.master_join_requested_ms (omega arith) c in
    let t : leb master_join_timeout_ms (elapsed x.now s.intent.master_join_requested_ms) ≡ true =
      rw e (ground arith) in
    rw t
      (fails_own Stage.master_join_requested FailReason.timeout x s x.now h st (λ z. cc) (λ z. cc))

tick_joining :
    (x : Tick) (s : State) (joined : ℕ)
    → s.intent.serial ≢ 0
    → s.intent.stage ≡ Stage.master_join_requested
    → s.intent.master_join_requested_ms ≤ joined
    → 1 ≤ x.now
    → Waits joined x.now (advance x s).1.intent
unfolding advance advance_from advance_at
tick_joining x s joined h st le pos =
    subst (λ stage. Waits joined x.now (advance_at stage x s.intent s).intent) (sym st)
      (elim (Bool-cases (is_transport_ready x s.intent)) [
        | inl t ↦ rw t (past (await_native_b_lem x s h (inr st) pos))
        | inr f ↦ rw f (await_join_lem x s joined h st le)
      ])

pub tick_joined :
    (x : Tick) (s : State) (joined : ℕ)
    → s.intent.serial ≢ 0
    → s.intent.stage ≡ Stage.master_join_requested
    → s.intent.master_join_requested_ms ≤ joined
    → 1 ≤ x.now
    → joined + master_join_timeout_ms ≤ x.now
    → x.now < 2 ^ 32
    → Owns x.now (advance x s).1.intent
unfolding advance advance_from advance_at
tick_joined x s joined h st le pos late c =
    subst (λ stage. Owns x.now (advance_at stage x s.intent s).intent) (sym st)
      (elim (Bool-cases (is_transport_ready x s.intent)) [
        | inl t ↦ rw t (await_native_b_lem x s h (inr st) pos)
        | inr f ↦ rw f (await_join_late x s joined h st le late c)
      ])

-- A tick that finds it waiting for the owner, or failed.
pub tick-Owns :
    (x : Tick) (s : State) (waited : ℕ) → Owns waited s.intent → Owns waited (advance x s).1.intent
unfolding advance advance_from advance_at await_owner
tick-Owns x s waited h = elim h [
  | over st ↦ subst (λ stage. Owns waited (advance_at stage x s.intent s).intent) (sym st) (over st)
  | owner n st pos le ↦
      subst (λ stage. Owns waited (advance_at stage x s.intent s).intent) (sym st)
        (elim (Bool-cases (
          not (s.intent.native_b_wait_started_ms == 0)
          && leb native_b_owner_wait_timeout_ms
              (elapsed x.now s.intent.native_b_wait_started_ms))) [
                | inr f ↦ rw f (log_waiting_lem x s waited (owner n st pos le))
                | inl t ↦ rw t (
                    fails_own Stage.awaiting_native_b FailReason.timeout x s waited n st (λ z. cc)
                      (λ z. cc))
              ])
]

pub tick_last :
    (x : Tick) (s : State) (waited : ℕ)
    → Owns waited s.intent
    → waited + native_b_owner_wait_timeout_ms ≤ x.now
    → x.now < 2 ^ 32
    → (advance x s).1.intent.stage ≡ Stage.failed
unfolding advance advance_from advance_at await_owner
tick_last x s waited h late c = elim h [
  | over st ↦
      subst (λ stage. (advance_at stage x s.intent s).intent.stage ≡ Stage.failed) (sym st) st
  | owner n st pos le ↦
      subst (λ stage. (advance_at stage x s.intent s).intent.stage ≡ Stage.failed) (sym st)
        (let t = owner_timeout x s.intent waited pos le late c in
          rw t (
            ap Intent.stage (
              fail_with_lem Stage.awaiting_native_b FailReason.timeout x.clock s n st (λ z. cc)
                (λ z. cc))))
]
  where
    owner_timeout :
        (x : Tick) (i : Intent) (waited : ℕ)
        → 1 ≤ i.native_b_wait_started_ms
        → i.native_b_wait_started_ms ≤ waited
        → waited + native_b_owner_wait_timeout_ms ≤ x.now
        → x.now < 2 ^ 32
        → (not (i.native_b_wait_started_ms == 0)
            && leb native_b_owner_wait_timeout_ms (elapsed x.now i.native_b_wait_started_ms))
          ≡ true
    owner_timeout x i waited pos le late c =
        rw (elapsed_lem x.now i.native_b_wait_started_ms (omega arith) c) (ground arith)

pub tick-Waits :
    (x : Tick) (s : State) (joined now : ℕ)
    → Waits joined now s.intent
    → now ≤ x.now
    → 1 ≤ x.now
    → Waits joined x.now (advance x s).1.intent
tick-Waits x s joined now h le pos = elim h [
  | joining n st j ↦ tick_joining x s joined n st j pos
  | past o ↦ past (later x.now now (advance x s).1.intent le (tick-Owns x s now o))
]
  where
    later : (b a : ℕ) (i : Intent) → a ≤ b → Owns a i → Owns b i
    later b a i le (owner n st pos k) = owner n st pos (omega arith)
    later b a i le (over st) = over st
