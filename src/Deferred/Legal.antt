-- ===== src/Deferred/Legal.antt =====
-- The machine that the functions of src/reconnect_fix.cpp implement: which stage follows which, and
-- what becomes of the serial.
use revenant_fix.Prelude.{
  ℕ, ◌+◌, ◌<◌, ◌%◌, ◌^◌, ◌≡◌, ◌≢◌, ◌⊎◌, inl, inr, refl, false, List, [], ◌∷◌, arith, Bool-cases,
}
use revenant_fix.Deferred.{Stage, stage_code, Probe, State, is_stage}
use revenant_fix.Deferred.Arm.{ArmInput, armed_state, armed_intent, is_active, arm}
use revenant_fix.Deferred.Cleanup.{Exit, classify, exited_intent, adopt}
use revenant_fix.Deferred.Advance.{advance, advance_from}
use revenant_fix.Deferred.Edit.{
  stays, exits, transfers, fails, awaits, joins, logs, ends, gives_up, rebinds, arm-cases, IsEdit,
}
use revenant_fix.Deferred.Stages.{is_stage-eq}
use revenant_fix.Deferred.Ticks.{advance_from-IsEdit}
use revenant_fix.Deferred.Machine.{Run, here, act, arm_next, tick, Act-IsEdit}

-- The abstract machine: a stage, the serial of the intent, and the last serial that was given out.
pub record Machine : Type 0 where
  pub stage : Stage
  pub serial : ℕ
  pub last : ℕ

-- Its moves. A new intent gets the next serial; an intent goes forward, and leaves its stage for
-- good; only a transferred intent is erased.
pub data Move (a : Machine) (b : Machine) : Type 0 where
  rest : b ≡ a → Move a b
  begin :
      (a.stage ≡ Stage.idle) ⊎ (a.stage ≡ Stage.failed)
      → b ≡ record {
        stage = Stage.armed_reason4;
        serial = (a.last + 1) % 2 ^ 64;
        last = (a.last + 1) % 2 ^ 64;
      }
      → Move a b
  forward :
      stage_code a.stage < stage_code b.stage
      → a.stage ≢ Stage.idle
      → (b.stage ≡ Stage.cleanup_exited → a.stage ≡ Stage.armed_reason4)
      → b ≡ record a { stage = b.stage }
      → Move a b
  finish : a.stage ≡ Stage.armed_reason4 → b ≡ record a { stage = Stage.idle } → Move a b
  erase :
      a.stage ≡ Stage.authority_probe_transferred
      → b ≡ record { stage = Stage.idle; serial = 0; last = a.last }
      → Move a b

-- A trail of the machine from `a`: where it is, and where it was before, the latest first. Two
-- neighbours are one move apart.
pub data Trail (a : Machine) : Machine → List Machine → Type 0 where
  start : Trail a a []
  extend :
      {b c : Machine} {before : List Machine} → Trail a b before → Move b c → Trail a c (b ∷ before)

unfoldable pub view : State → Machine
view s = record { stage = s.intent.stage; serial = s.intent.serial; last = s.serial_counter }

forward_to :
    (s t : State) (a b : Stage)
    → s.intent.stage ≡ a
    → t.intent.stage ≡ b
    → t.intent.serial ≡ s.intent.serial
    → t.serial_counter ≡ s.serial_counter
    → stage_code a < stage_code b
    → a ≢ Stage.idle
    → (b ≡ Stage.cleanup_exited → a ≡ Stage.armed_reason4)
    → Move (view s) (view t)
unfolding view
forward_to s t a b sa tb same last lt live after =
    rw (same, last) (forward (rw (sa, tb) lt) (rw sa live) (rw (sa, tb) after) refl)

exited-Move :
    (s t : State) (p : Probe) (now : ℕ) (e : Exit)
    → s.intent.stage ≡ Stage.armed_reason4
    → t.intent ≡ exited_intent p now e s.intent
    → t.serial_counter ≡ s.serial_counter
    → Move (view s) (view t)
unfolding exited_intent adopt stage_code view
exited-Move s t p now Exit.transferred sa je last =
    forward_to s t Stage.armed_reason4 Stage.authority_probe_transferred sa (rw je refl)
      (rw je refl) last (omega arith) (λ z. cc) (λ z. refl)
exited-Move s t p now Exit.terminal_completed sa je last = finish sa (rw (je, last) refl)
exited-Move s t p now Exit.terminal_failed sa je last =
    forward_to s t Stage.armed_reason4 Stage.failed sa (rw je refl) (rw je refl) last (omega arith)
      (λ z. cc) (λ z. refl)
exited-Move s t p now Exit.waiting sa je last =
    forward_to s t Stage.armed_reason4 Stage.cleanup_exited sa (rw je refl) (rw je refl) last
      (omega arith) (λ z. cc) (λ z. refl)

failed-Move :
    (s t : State) (stage : Stage)
    → s.intent.stage ≡ stage
    → stage ≢ Stage.idle
    → t.intent.stage ≡ Stage.failed
    → t.intent.serial ≡ s.intent.serial
    → t.serial_counter ≡ s.serial_counter
    → Move (view s) (view t)
unfolding view stage_code
failed-Move s t Stage.idle sa live tb same last = absurd (live refl)
failed-Move s t Stage.failed sa live tb same last = rest (rw (sa, tb, same, last) refl)
failed-Move s t Stage.armed_reason4 sa live tb same last =
    forward_to s t Stage.armed_reason4 Stage.failed sa tb same last (omega arith) live (λ z. cc)
failed-Move s t Stage.cleanup_exited sa live tb same last =
    forward_to s t Stage.cleanup_exited Stage.failed sa tb same last (omega arith) live (λ z. cc)
failed-Move s t Stage.master_join_requested sa live tb same last =
    forward_to s t Stage.master_join_requested Stage.failed sa tb same last (omega arith) live
      (λ z. cc)
failed-Move s t Stage.awaiting_native_b sa live tb same last =
    forward_to s t Stage.awaiting_native_b Stage.failed sa tb same last (omega arith) live (λ z. cc)
failed-Move s t Stage.authority_probe_transferred sa live tb same last =
    forward_to s t Stage.authority_probe_transferred Stage.failed sa tb same last (omega arith) live
      (λ z. cc)

-- Every edit of the intent is a move.
pub Edit-Move : (s t : State) → IsEdit s t → Move (view s) (view t)
unfolding view adopt stage_code
Edit-Move s t (stays e, last) = rest (rw (e, last) refl)
Edit-Move s t (exits p now st e, last) = exited-Move s t p now (classify s.intent p) st e last
Edit-Move s t (transfers p x (inl st) e, last) =
    forward_to s t Stage.master_join_requested Stage.authority_probe_transferred st (rw e refl)
      (rw e refl) last (omega arith) (λ z. cc) (λ z. cc)
Edit-Move s t (transfers p x (inr st) e, last) =
    forward_to s t Stage.awaiting_native_b Stage.authority_probe_transferred st (rw e refl)
      (rw e refl) last (omega arith) (λ z. cc) (λ z. cc)
Edit-Move s t (fails n1 n2 e, last) =
    failed-Move s t s.intent.stage refl n1 (rw e refl) (rw e refl) last
Edit-Move s t (awaits now (inl st) e, last) =
    forward_to s t Stage.cleanup_exited Stage.awaiting_native_b st (rw e refl) (rw e refl) last
      (omega arith) (λ z. cc) (λ z. cc)
Edit-Move s t (awaits now (inr st) e, last) =
    forward_to s t Stage.master_join_requested Stage.awaiting_native_b st (rw e refl) (rw e refl)
      last (omega arith) (λ z. cc) (λ z. cc)
Edit-Move s t (joins now call st ne e, last) =
    forward_to s t Stage.cleanup_exited Stage.master_join_requested st (rw e refl) (rw e refl) last
      (omega arith) (λ z. cc) (λ z. cc)
Edit-Move s t (logs now e, last) = rest (rw (e, last) refl)
Edit-Move s t (ends st e, last) = erase st (rw (e, last) refl)
Edit-Move s t (gives_up now st e, last) =
    failed-Move s t s.intent.stage refl (λ z. cc) (rw e refl) (rw e refl) last
Edit-Move s t (rebinds nonce st ne e, last) = rest (rw (e, last) refl)

inactive-cases : (a : Stage) → is_active a ≡ false → (a ≡ Stage.idle) ⊎ (a ≡ Stage.failed)
unfolding is_active
inactive-cases a h = elim (Bool-cases (is_stage a Stage.idle)) [
  | inl t ↦ inl (is_stage-eq a Stage.idle t)
  | inr f ↦ inr (is_stage-eq a Stage.failed (ground (arith, f)))
]

-- An arming is a move.
pub arm-Move : (x : ArmInput) (s : State) → Move (view s) (view (arm x s).1)
unfolding view armed_state armed_intent
arm-Move x s = elim (arm-cases x s) [
  | inl e ↦ rw e (rest refl)
  | inr (e, r, a) ↦ rw e (begin (inactive-cases s.intent.stage a) refl)
]

-- What the machine shows before each step of a run, the latest first.
pub visited : {s t : State} {n : ℕ} {js : List ℕ} → Run s n js t → List Machine
visited here = []
visited (act {t = t} r a) = view t ∷ visited r
visited (arm_next {t = t} r x) = view t ∷ visited r
visited (tick {t = t} r x) = view t ∷ visited r

-- Every run of the code is a trail of the abstract machine, step by step: each single step leaves the
-- stage and the serials alone; or takes an intent that is not idle to a later stage under its
-- serial, to the exit of the cleanup only from the armed stage; or makes an armed intent idle; or
-- erases a transferred one; or replaces one that is idle or failed by an armed one, under the next
-- serial. So nothing leaves the failed stage but an arming.
pub Run-refines :
    {s t : State} {n : ℕ} {js : List ℕ} → (r : Run s n js t) → Trail (view s) (view t) (visited r)
unfolding advance visited
Run-refines here = start
Run-refines (act {t = t} {u = u} r a) = extend (Run-refines r) (Edit-Move t u (Act-IsEdit a))
Run-refines (arm_next {t = t} r x) = extend (Run-refines r) (arm-Move x t)
Run-refines (tick {t = t} r x) =
    extend (Run-refines r)
      (Edit-Move t (advance_from x t.intent t) (advance_from-IsEdit x t.intent t))
