-- ===== src/Deferred/Machine.antt =====
-- The runs of the deferred reconnect: every function of src/reconnect_fix.cpp that writes the intent
-- as a step, in any order and with any input.
use revenant_fix.Prelude.{ℕ, ◌+◌, ◌≡◌, ◌≢◌, refl, Bool, List, [], ◌++◌, map}
use revenant_fix.Deferred.{Stage, Intent, Probe, Runtime, State}
use revenant_fix.Deferred.Authority.{retire, rebind}
use revenant_fix.Deferred.Arm.{ArmInput, arm}
use revenant_fix.Deferred.Cleanup.{mark_exited, mark_transferred, fail}
use revenant_fix.Deferred.Advance.{Tick, advance_from, joins_of, advance}
use revenant_fix.Deferred.Edit.{
  stays, IsEdit, mark_exited-IsEdit, mark_transferred-IsEdit, fail-IsEdit, retire-IsEdit,
  rebind-IsEdit,
}
use revenant_fix.Deferred.Ticks.{advance_from-IsEdit}

-- Every call that writes the intent, but for an arming, and writes of others to the runtime state.
pub data Act (s : State) (t : State) : Type 0 where
  exit :
      (serial : ℕ) (p : Probe) (now phase_now : ℕ)
      → t ≡ (mark_exited serial p now phase_now s).1
      → Act s t
  transfer :
      (serial : ℕ) (p current : Probe) (phase_now : ℕ)
      → t ≡ (mark_transferred serial p current phase_now s).1
      → Act s t
  fail_intent : (serial mask : ℕ) → t ≡ (fail serial mask s).1 → Act s t
  retire_intent :
      (p : Probe) (completed : Bool) (now : ℕ) → t ≡ (retire p completed now s).1 → Act s t
  rebind_intent : (before after : Probe) → t ≡ rebind before after s → Act s t
  tick_late :
      (x : Tick) (snapshot : Intent)
      → snapshot.stage ≢ Stage.cleanup_exited
      → t ≡ advance_from x snapshot s
      → Act s t
  write_runtime : (r : Runtime) → t ≡ record s { runtime = r } → Act s t

pub Act-IsEdit : {s t : State} → Act s t → IsEdit s t
Act-IsEdit {s = s} (exit serial p now phase_now e) =
    rw e (mark_exited-IsEdit serial p now phase_now s)
Act-IsEdit {s = s} (transfer serial p current phase_now e) =
    rw e (mark_transferred-IsEdit serial p current phase_now s)
Act-IsEdit {s = s} (fail_intent serial mask e) = rw e (fail-IsEdit serial mask s)
Act-IsEdit {s = s} (retire_intent p completed now e) = rw e (retire-IsEdit p completed now s)
Act-IsEdit {s = s} (rebind_intent before after e) = rw e (rebind-IsEdit before after s)
Act-IsEdit {s = s} (tick_late x snapshot h e) = rw e (advance_from-IsEdit x snapshot s)
Act-IsEdit {s = s} (write_runtime r e) = rw e (stays refl, refl)

-- Runs from `s`, with how often an arming was tried and the serials of the intents for which a join
-- of the master lobby was requested, the latest first.
pub data Run (s : State) : ℕ → List ℕ → State → Type 0 where
  here : Run s 0 [] s
  act : {n : ℕ} {js : List ℕ} {t u : State} → Run s n js t → Act t u → Run s n js u
  arm_next :
      {n : ℕ} {js : List ℕ} {t : State}
      → Run s n js t
      → (x : ArmInput) → Run s (n + 1) js (arm x t).1
  tick :
      {n : ℕ} {js : List ℕ} {t : State}
      → Run s n js t
      → (x : Tick)
      → Run s n (map (λ lobby. t.intent.serial) (joins_of x t.intent) ++ js) (advance x t).1
