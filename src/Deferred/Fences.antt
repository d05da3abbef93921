-- ===== src/Deferred/Fences.antt =====
-- What the serial of an intent and the nonce of a probe fence off, in src/reconnect_fix.cpp.
use revenant_fix.Prelude.{
  ℕ, ◌+◌, ◌<◌, ◌≤◌, ◌^◌, ◌≡◌, ◌≢◌, inl, inr, refl, ap, false, not, some, List, ◌==◌, arith,
  Bool-cases,
}
use revenant_fix.Deferred.{Probe, State}
use revenant_fix.Deferred.Arm.{ArmInput, arm, armed_state, armed_intent}
use revenant_fix.Deferred.Cleanup.{mark_exited, may_transfer, mark_transferred, fail}
use revenant_fix.Deferred.Advance.{advance, advance_from}
use revenant_fix.Deferred.Edit.{arm-cases}
use revenant_fix.Deferred.Ticks.{advance_from-IsEdit}
use revenant_fix.Deferred.Machine.{Run, here, act, arm_next, tick, Act-IsEdit}
use revenant_fix.Deferred.Legal.{
  Machine, Move, rest, begin, forward, finish, erase, view, Edit-Move, arm-Move,
}
use revenant_fix.Deferred.Once.{Run-counter}

-- A serial that was given out earlier, and is no longer that of the intent.
IsDead : ℕ → Machine → Type 0
IsDead k m = (m.serial ≢ k) × (k ≤ m.last)

Move-IsDead :
    (k : ℕ) {a b : Machine} → Move a b → k ≢ 0 → a.last + 1 < 2 ^ 64 → IsDead k a → IsDead k b
unfolding IsDead
Move-IsDead k (rest e) nz h d = rw e d
Move-IsDead k (begin st e) nz h (ne, le) = rw e ((λ z. omega arith), omega arith)
Move-IsDead k (forward lt live after e) nz h (ne, le) =
    rw (ap Machine.last e, ap Machine.serial e) (ne, le)
Move-IsDead k (finish st e) nz h (ne, le) = rw e (ne, le)
Move-IsDead k (erase st e) nz h (ne, le) = rw e ((λ z. omega arith), le)

Run-IsDead :
    {s t : State} {n : ℕ} {js : List ℕ} (k : ℕ)
    → Run s n js t
    → k ≢ 0
    → s.intent.serial ≤ s.serial_counter
    → s.serial_counter + n + 1 < 2 ^ 64
    → IsDead k (view s)
    → IsDead k (view t)
unfolding advance view
Run-IsDead k here nz f c d = d
Run-IsDead k (act {t = t} {u = u} r a) nz f c d =
    Move-IsDead k (Edit-Move t u (Act-IsEdit a)) nz (omega (arith, (Run-counter r f).1))
      (Run-IsDead k r nz f c d)
Run-IsDead k (arm_next {t = t} r x) nz f c d =
    Move-IsDead k (arm-Move x t) nz (omega (arith, (Run-counter r f).1))
      (Run-IsDead k r nz f (omega arith) d)
Run-IsDead k (tick {t = t} r x) nz f c d =
    Move-IsDead k (Edit-Move t (advance_from x t.intent t) (advance_from-IsEdit x t.intent t)) nz
      (omega (arith, (Run-counter r f).1)) (Run-IsDead k r nz f c d)

-- The functions that take a serial do nothing for another one.
other_serial :
    (k : ℕ) (s : State)
    → s.intent.serial ≢ k
    → ((p : Probe) (now phase_now : ℕ) → mark_exited k p now phase_now s ≡ (false, s))
      × ((p current : Probe) (phase_now : ℕ)
          → mark_transferred k p current phase_now s ≡ (false, s))
      × ((mask : ℕ) → fail k mask s ≡ (false, s))
unfolding mark_exited mark_transferred may_transfer fail
other_serial k s h =
    let f : (s.intent.serial == k) ≡ false = ground (arith, h) in
    elim (Bool-cases (not (k == 0))) [
      | inl t ↦ (
        λ p now phase_now. rw (t, f) refl,
        λ p current phase_now. rw (t, f) refl,
        λ mask. rw (t, f) refl,
      )
      | inr u ↦ (λ p now phase_now. rw u refl, λ p current phase_now. rw u refl, λ mask. rw u refl)
    ]

-- Once an intent is armed, a serial that was given out before it, other than 0, is dead: after any
-- run in which the counter of serials does not wrap, the exit of a cleanup, a transfer and a failure
-- that hold it are refused and change nothing.
pub dead_serial :
    (t : State) {v : State} {n : ℕ} {js : List ℕ} (k : ℕ) (x : ArmInput) (serial : ℕ)
    → (arm x t).0 ≡ some serial
    → k ≢ 0
    → k ≤ t.serial_counter
    → t.serial_counter + n + 2 < 2 ^ 64
    → Run (arm x t).1 n js v
    → ((p : Probe) (now phase_now : ℕ) → mark_exited k p now phase_now v ≡ (false, v))
      × ((p current : Probe) (phase_now : ℕ)
          → mark_transferred k p current phase_now v ≡ (false, v))
      × ((mask : ℕ) → fail k mask v ≡ (false, v))
unfolding armed_state armed_intent IsDead view
dead_serial t {v = v} k x serial h nz le c r = elim (arm-cases x t) [
  | inl e ↦ cc
  | inr (e, q, a) ↦
      other_serial k v
        (Run-IsDead k (rw e at r) nz (omega arith) (omega arith)
          ((λ z. omega arith), omega arith)).0
]
