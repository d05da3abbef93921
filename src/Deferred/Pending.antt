-- ===== src/Deferred/Pending.antt =====
-- The stages in front of `RequestNrscMasterLobbyJoin` in src/reconnect_fix.cpp, and what leaves them.
use revenant_fix.Prelude.{
  ℕ, ◌+◌, ◌<◌, ◌≤◌, ◌^◌, ◌≡◌, ◌≢◌, inl, inr, refl, ap, ==_iff, ◌∙◌, Bool, true, false, ◌&&◌, ◌||◌,
  not, ltb, ◌==◌, arith, Bool-cases, if◌then◌else◌, has_bit,
}
use revenant_fix.Deferred.{Stage, stage_code, FailReason, State, is_stage}
use revenant_fix.Deferred.Authority.{FailClock}
use revenant_fix.Deferred.Cleanup.{fail, fail_with, stage_mask}
use revenant_fix.Deferred.Advance.{
  Tick, advance_at, advance_from, join_master, join_requested, is_transport_ready,
}
use revenant_fix.Deferred.Stages.{is_stage-eq}
use revenant_fix.Deferred.Legal.{Machine, Move, rest, begin, forward, finish, erase}

own_bit :
    (stage : Stage) (serial : ℕ)
    → serial ≢ 0
    → stage ≢ Stage.idle
    → stage ≢ Stage.authority_probe_transferred
    → (not (serial == 0)
        && (serial == serial
            && (has_bit (stage_mask stage) (stage_code stage)
                && (not (is_stage stage Stage.authority_probe_transferred)
                    && not (is_stage stage Stage.idle)))))
      ≡ true
unfolding stage_mask stage_code
own_bit Stage.idle serial h n1 n2 = absurd (n1 refl)
own_bit Stage.armed_reason4 serial h n1 n2 = ground arith
own_bit Stage.cleanup_exited serial h n1 n2 = ground arith
own_bit Stage.master_join_requested serial h n1 n2 = ground arith
own_bit Stage.awaiting_native_b serial h n1 n2 = ground arith
own_bit Stage.authority_probe_transferred serial h n1 n2 = absurd (n2 refl)
own_bit Stage.failed serial h n1 n2 = ground arith

fail_lem :
    (stage : Stage) (s : State)
    → s.intent.serial ≢ 0
    → s.intent.stage ≡ stage
    → stage ≢ Stage.idle
    → stage ≢ Stage.authority_probe_transferred
    → fail s.intent.serial (stage_mask stage) s
      ≡ (true, record s { intent = record s.intent { stage = Stage.failed } })
unfolding fail
fail_lem stage s h st n1 n2 = rw (st, own_bit stage s.intent.serial h n1 n2) refl

-- A failure that expects the stage in which the intent is takes place.
pub fail_with_lem :
    (stage : Stage) (reason : FailReason) (c : FailClock) (s : State)
    → s.intent.serial ≢ 0
    → s.intent.stage ≡ stage
    → stage ≢ Stage.idle
    → stage ≢ Stage.authority_probe_transferred
    → (fail_with s.intent.serial stage reason c s).intent ≡ record s.intent { stage = Stage.failed }
unfolding fail_with
fail_with_lem stage reason c s h st n1 n2 = rw (fail_lem stage s h st n1 n2) refl

-- The stages in front of the join.
unfoldable pub is_open : Stage → Bool
is_open stage = is_stage stage Stage.armed_reason4 || is_stage stage Stage.cleanup_exited

is_open_back :
    (x y : Stage)
    → stage_code x < stage_code y
    → x ≢ Stage.idle
    → (y ≡ Stage.cleanup_exited → x ≡ Stage.armed_reason4)
    → is_open y ≡ true
    → is_open x ≡ true
unfolding is_open stage_code
is_open_back x y lt live after h = elim (Bool-cases (is_stage y Stage.cleanup_exited)) [
  | inl t ↦ rw (after (is_stage-eq y Stage.cleanup_exited t)) refl
  | inr f ↦ absurd (live (is_stage-eq x Stage.idle (ground arith)))
]

-- An intent that can still request a join: it is not armed yet, or waits for the cleanup or the tick.
unfoldable pub pending : ℕ → Machine → ℕ
pending k m = if ltb m.last k then 1 else if m.serial == k && is_open m.stage then 1 else 0

forward_pending :
    (k : ℕ) (a b : Machine)
    → b.last ≡ a.last
    → b.serial ≡ a.serial
    → stage_code a.stage < stage_code b.stage
    → a.stage ≢ Stage.idle
    → (b.stage ≡ Stage.cleanup_exited → a.stage ≡ Stage.armed_reason4)
    → pending k b ≤ pending k a
unfolding pending
forward_pending k a b last serial lt live after =
    rw (last, serial) (ground (arith, is_open_back a.stage b.stage lt live after))

pub Move-pending :
    (k : ℕ) {a b : Machine} → Move a b → a.last + 1 < 2 ^ 64 → pending k b ≤ pending k a
unfolding pending is_open stage_code
Move-pending k (rest e) h = rw e (omega arith)
Move-pending k (begin st e) h = rw e (ground arith)
Move-pending k {a = a} {b = b} (forward lt live after e) h =
    forward_pending k a b (ap Machine.last e) (ap Machine.serial e) lt live after
Move-pending k (finish st e) h = rw e (ground arith)
Move-pending k (erase st e) h = rw e (ground arith)

-- The join of a tick.
join_master-is_open :
    (x : Tick) (s : State)
    → s.intent.serial ≢ 0
    → s.intent.stage ≡ Stage.cleanup_exited
    → is_open (join_master x s.intent s).intent.stage ≡ false
unfolding join_master join_requested is_open stage_code
join_master-is_open x s h st = elim (Bool-cases (x.join_lobby s.intent.master_lobby_id == 0)) [
  | inl t ↦
      rw
        (
          t,
          fail_with_lem Stage.cleanup_exited FailReason.restore_context_missing x.clock s h st
              (λ z. cc) (λ z. cc),
        )
        refl
  | inr f ↦ rw (f, (==_iff s.intent.serial s.intent.serial).1 refl, is_exited) refl
]
  where
    is_exited : is_stage s.intent.stage Stage.cleanup_exited ≡ true
    is_exited = rw st refl

-- A tick that requests a join leaves the stages in front of it.
pub joining_tick :
    (x : Tick) (s : State)
    → s.intent.serial ≢ 0
    → s.intent.stage ≡ Stage.cleanup_exited
    → is_transport_ready x s.intent ≡ false
    → is_open (advance_from x s.intent s).intent.stage ≡ false
unfolding advance_from advance_at
joining_tick x s h st nr =
    ap (λ stage. is_open (advance_at stage x s.intent s).intent.stage) st
    ∙ rw nr (join_master-is_open x s h st)
