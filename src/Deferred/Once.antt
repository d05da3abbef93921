-- ===== src/Deferred/Once.antt =====
-- One request for one intent: `RequestNrscMasterLobbyJoin` in src/reconnect_fix.cpp is called once at
-- most for a serial.
use revenant_fix.Prelude.{
  ℕ, ◌+◌, ◌<◌, ◌≤◌, ◌^◌, ◌≡◌, ◌≢◌, inl, inr, sym, ap, ◌∙◌, Bool, false, ◌&&◌, not, List, [], ◌∷◌,
  ◌++◌, map, ◌==◌, arith, Bool-cases, count, ℕ_discrete,
}
use revenant_fix.Deferred.{Stage, stage_code, State, is_stage}
use revenant_fix.Deferred.Arm.{ArmInput, arm, armed_state}
use revenant_fix.Deferred.Advance.{Tick, advance, advance_from, joins_of, is_transport_ready}
use revenant_fix.Deferred.Edit.{arm-cases}
use revenant_fix.Deferred.Stages.{is_stage-eq}
use revenant_fix.Deferred.Ticks.{advance_from-IsEdit}
use revenant_fix.Deferred.Machine.{Run, here, act, arm_next, tick, Act-IsEdit}
use revenant_fix.Deferred.Legal.{
  Machine, Move, rest, begin, forward, finish, erase, view, Edit-Move, arm-Move,
}
use revenant_fix.Deferred.Pending.{is_open, pending, Move-pending, joining_tick}

-- Serials are never ahead of their counter.
Move-fresh : {a b : Machine} → Move a b → a.serial ≤ a.last → b.serial ≤ b.last
Move-fresh (rest e) h = rw e h
Move-fresh (begin st e) h = rw e (omega arith)
Move-fresh {a = a} {b = b} (forward lt live after e) h =
    rw (ap Machine.last e, ap Machine.serial e) h
Move-fresh (finish st e) h = rw e h
Move-fresh (erase st e) h = rw e (omega arith)

arm-counter : (x : ArmInput) (s : State) → (arm x s).1.serial_counter ≤ s.serial_counter + 1
unfolding armed_state
arm-counter x s = elim (arm-cases x s) [
  | inl e ↦ rw e (omega arith)
  | inr (e, r, a) ↦ rw e (omega arith)
]

-- The counter moves by one for an arming at most, and stays ahead of the serials.
pub Run-counter :
    {s t : State} {n : ℕ} {js : List ℕ}
    → Run s n js t
    → s.intent.serial ≤ s.serial_counter
    → (t.intent.serial ≤ t.serial_counter) × (t.serial_counter ≤ s.serial_counter + n)
unfolding advance view
Run-counter here h = (h, omega arith)
Run-counter (act {t = t} {u = u} r a) h =
    let (f, c) = Run-counter r h in
    (Move-fresh (Edit-Move t u (Act-IsEdit a)) f, omega (arith, (Act-IsEdit a).1))
Run-counter (arm_next {t = t} r x) h =
    let (f, c) = Run-counter r h in (Move-fresh (arm-Move x t) f, omega (arith, arm-counter x t))
Run-counter (tick {t = t} r x) h =
    let (f, c) = Run-counter r h in
    let e = advance_from-IsEdit x t.intent t in
    (Move-fresh (Edit-Move t (advance_from x t.intent t) e) f, omega (arith, e.1))

unfoldable pub of_serial : ℕ → ℕ → Bool
of_serial k j = j == k

pending_spent : (k : ℕ) (m : Machine) → k ≤ m.last → is_open m.stage ≡ false → pending k m ≡ 0
unfolding pending
pending_spent k m h o = rw o (ground arith)

pending_own :
    (k : ℕ) (m : Machine) → m.serial ≡ k → m.stage ≡ Stage.cleanup_exited → pending k m ≡ 1
unfolding pending is_open stage_code
pending_own k m h st = rw st (ground arith)

-- The budget of a serial, over a tick that requests a join.
spend-pending :
    (k : ℕ) (x : Tick) (t : State) (js : List ℕ)
    → k ≢ 0
    → t.intent.serial ≤ t.serial_counter
    → t.serial_counter + 1 < 2 ^ 64
    → t.intent.stage ≡ Stage.cleanup_exited
    → is_transport_ready x t.intent ≡ false
    → count (of_serial k) js + pending k (view t) ≤ 1
    → count (of_serial k) (t.intent.serial ∷ js) + pending k (view (advance_from x t.intent t)) ≤ 1
unfolding view count of_serial
spend-pending k x t js nz f c st nr h = elim (ℕ_discrete t.intent.serial k) [
  | yes own ↦
      let spent =
        pending_spent k (view (advance_from x t.intent t))
          (omega (arith, (advance_from-IsEdit x t.intent t).1))
          (joining_tick x t (λ z. nz (sym own ∙ z)) st nr) in
      ground (arith, spent, pending_own k (view t) own st)
  | no other ↦
      let e = advance_from-IsEdit x t.intent t in
      let m = Move-pending k (Edit-Move t (advance_from x t.intent t) e) c in
      ground (arith, m, other)
]

-- The budget of a serial, over a tick.
tick-pending :
    (k : ℕ) (x : Tick) (t : State) (js : List ℕ)
    → k ≢ 0
    → t.intent.serial ≤ t.serial_counter
    → t.serial_counter + 1 < 2 ^ 64
    → count (of_serial k) js + pending k (view t) ≤ 1
    → count (of_serial k) (map (λ lobby. t.intent.serial) (joins_of x t.intent) ++ js)
        + pending k (view (advance_from x t.intent t))
      ≤ 1
unfolding joins_of view
tick-pending k x t js nz f c h =
    elim (Bool-cases
      (is_stage t.intent.stage Stage.cleanup_exited && not (is_transport_ready x t.intent))) [
        | inr g ↦
            let e = advance_from-IsEdit x t.intent t in
            let m = Move-pending k (Edit-Move t (advance_from x t.intent t) e) c in
            rw g (omega (arith, m))
        | inl g ↦ rw g (
            spend-pending k x t js nz f c
              (is_stage-eq t.intent.stage Stage.cleanup_exited (ground arith)) (ground arith) h)
      ]

start_budget : (k : ℕ) (m : Machine) → count (of_serial k) [] + pending k m ≤ 1
unfolding count pending
start_budget k m = ground arith

bound :
    (c n : ℕ) (t : State)
    → t.serial_counter ≤ c + n
    → c + n + 1 < 2 ^ 64
    → (view t).last + 1 < 2 ^ 64
unfolding view
bound c n t h k = omega arith

-- Along a run that starts with no request and in which the counter of serials does not wrap, a join
-- of the master lobby is requested once at most for each serial other than 0, however often the
-- function ticks and whatever happens between the ticks.
pub Run-joins :
    {s t : State} {n : ℕ} {js : List ℕ} (k : ℕ)
    → k ≢ 0
    → Run s n js t
    → s.intent.serial ≤ s.serial_counter
    → s.serial_counter + n + 1 < 2 ^ 64
    → count (of_serial k) js ≤ 1
unfolding advance
Run-joins {s = s} k nz r h c = omega (arith, budget r c)
  where
    budget :
        {t : State} {n : ℕ} {js : List ℕ}
        → Run s n js t
        → s.serial_counter + n + 1 < 2 ^ 64
        → count (of_serial k) js + pending k (view t) ≤ 1
    budget here c = omega (arith, start_budget k (view s))
    budget (act {n = n} {t = t} {u = u} r a) c =
        let (f, b) = Run-counter r h in
        let m = Move-pending k (Edit-Move t u (Act-IsEdit a)) (bound s.serial_counter n t b c) in
        omega (arith, budget r c, m)
    budget (arm_next {n = n} {t = t} r x) c =
        let (f, b) = Run-counter r h in
        let m = Move-pending k (arm-Move x t) (bound s.serial_counter n t b (omega arith)) in
        omega (arith, budget r (omega arith), m)
    budget (tick {js = js} {t = t} r x) c =
        let (f, b) = Run-counter r h in tick-pending k x t js nz f (omega arith) (budget r c)
