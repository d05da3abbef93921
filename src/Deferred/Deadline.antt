-- ===== src/Deferred/Deadline.antt =====
-- How long `AdvanceDeferredReconnectIntent` of src/reconnect_fix.cpp waits: its ticks alone bring every
-- intent that left the cleanup to an end.
use revenant_fix.Prelude.{
  ℕ, ◌+◌, ◌<◌, ◌≤◌, ◌^◌, ◌≡◌, ◌≢◌, refl, ap, ◌∙◌, List, [], ◌∷◌, ◌++◌, arith,
}
use revenant_fix.Deferred.{Stage, Intent, State}
use revenant_fix.Deferred.Advance.{
  Tick, advance, master_join_timeout_ms, native_b_owner_wait_timeout_ms,
}
use revenant_fix.Deferred.Waits.{Owns, owner, over, Waits, joining, past, tick_first}
use revenant_fix.Deferred.Timeouts.{tick_joined, tick-Owns, tick_last, tick-Waits}

-- Ticks one after the other.
unfoldable pub run : List Tick → State → State
run [] s = s
run (x ∷ xs) s = run xs (advance x s).1

-- The clock of the ticks does not go back, from `now` to `last`.
abbrev pub IsClock : ℕ → List Tick → ℕ → Type 0
IsClock now [] last = now ≤ last
IsClock now (x ∷ xs) last = (now ≤ x.now) × IsClock x.now xs last

run-append : (xs ys : List Tick) (s : State) → run (xs ++ ys) s ≡ run ys (run xs s)
unfolding run
run-append [] ys s = refl
run-append (x ∷ xs) ys s = run-append xs ys (advance x s).1

later : (now last : ℕ) (i : Intent) → now ≤ last → Owns now i → Owns last i
later now last i le (owner n st pos k) = owner n st pos (omega arith)
later now last i le (over st) = over st

run-Waits :
    (xs : List Tick) (s : State) (joined now last : ℕ)
    → IsClock now xs last
    → 1 ≤ now
    → Waits joined now s.intent
    → Waits joined last (run xs s).intent
unfolding run
run-Waits [] s joined now last c pos h = elim h [
  | joining n st j ↦ joining n st j
  | past o ↦ past (later now last s.intent c o)
]
run-Waits (x ∷ xs) s joined now last c pos h =
    run-Waits xs (advance x s).1 joined x.now last c.1 (omega (arith, c.0))
      (tick-Waits x s joined now h c.0 (omega (arith, c.0)))

run-Owns :
    (xs : List Tick) (s : State) (waited : ℕ) → Owns waited s.intent → Owns waited (run xs s).intent
unfolding run
run-Owns [] s waited h = h
run-Owns (x ∷ xs) s waited h = run-Owns xs (advance x s).1 waited (tick-Owns x s waited h)

-- The tick that finds the join overdue.
tick_overdue :
    (y : Tick) (s : State) (joined : ℕ)
    → Waits joined y.now s.intent
    → 1 ≤ y.now
    → joined + master_join_timeout_ms ≤ y.now
    → y.now < 2 ^ 32
    → Owns y.now (advance y s).1.intent
tick_overdue y s joined h pos late c = elim h [
  | joining n st j ↦ tick_joined y s joined n st j pos late c
  | past o ↦ tick-Owns y s y.now o
]

-- An intent that left the cleanup waits for a bounded time: where the clock of the ticks does not go
-- back, is not 0 and does not wrap, it has failed after a first tick, any ticks, a tick 15 seconds
-- after the first one, any ticks, and a tick 30 seconds after that, whatever the ticks find, unless
-- something but a tick acts on it.
pub run-fails :
    (s : State) (x y z : Tick) (xs ys : List Tick)
    → s.intent.serial ≢ 0
    → s.intent.stage ≡ Stage.cleanup_exited
    → 1 ≤ x.now
    → IsClock x.now xs y.now
    → x.now + master_join_timeout_ms ≤ y.now
    → y.now + native_b_owner_wait_timeout_ms ≤ z.now
    → z.now < 2 ^ 32
    → (run (x ∷ (xs ++ (y ∷ (ys ++ (z ∷ []))))) s).intent.stage ≡ Stage.failed
unfolding run
run-fails s x y z xs ys h st pos clock late1 late2 c =
    let u = run xs (advance x s).1 in
    let w = run ys (advance y u).1 in
    let o = run-Waits xs (advance x s).1 x.now x.now y.now clock pos (tick_first x s h st pos) in
    let p = tick_overdue y u x.now o (omega arith) late1 (omega arith) in
    ap (λ t. t.intent.stage)
      (run-append xs (y ∷ (ys ++ (z ∷ []))) (advance x s).1
        ∙ run-append ys (z ∷ []) (advance y u).1)
    ∙ tick_last z w y.now (run-Owns ys (advance y u).1 y.now p) late2 c
