-- ===== src/Deferred/Sound.antt =====
-- The invariant of the deferred reconnect of src/reconnect_fix.cpp, along every run.
use revenant_fix.Prelude.{
  ℕ, ◌≤◌, ◌≡◌, ◌≢◌, ◌⊎◌, inl, inr, refl, sym, ◌∙◌, true, none, List, arith, Bool-cases,
}
use revenant_fix.Deferred.{Stage, Intent, Probe, State}
use revenant_fix.Deferred.Authority.{is_exact}
use revenant_fix.Deferred.Arm.{
  ArmInput, reject_reason, identity_of, next_serial, armed_intent, armed_state, arm,
}
use revenant_fix.Deferred.Cleanup.{is_exact_observer, Exit, classify, adopt, exited_intent}
use revenant_fix.Deferred.Advance.{advance}
use revenant_fix.Deferred.Edit.{
  Edit, stays, exits, transfers, fails, awaits, joins, logs, ends, gives_up, rebinds, arm-cases,
}
use revenant_fix.Deferred.Ticks.{advance_from-IsEdit}
use revenant_fix.Deferred.Machine.{Run, here, act, arm_next, tick, Act-IsEdit}

-- What an intent holds as long as it is not idle: the two lobbies are different, and the expedition,
-- its host and the player's record are known. A join was requested once at most.
abbrev pub IsTuple : Intent → Type 0
IsTuple i =
    (i.master_lobby_id ≢ 0)
    × (i.expedition_lobby_id ≢ 0)
    × (i.master_lobby_id ≢ i.expedition_lobby_id)
    × (i.host_steam_id ≢ 0)
    × (i.record_key ≢ 0)
    × (i.authority_identity_hash32 ≢ 0)
    × (i.master_join_attempts ≤ 1)

-- What each stage adds.
abbrev pub IsSoundAt : Stage → Intent → Type 0
IsSoundAt Stage.idle i = Unit
IsSoundAt Stage.armed_reason4 i = IsTuple i × (i.master_join_attempts ≡ 0)
IsSoundAt Stage.cleanup_exited i = IsTuple i × (i.master_join_attempts ≡ 0)
IsSoundAt Stage.master_join_requested i =
    IsTuple i × (i.master_join_attempts ≡ 1) × (i.master_join_call ≢ 0)
IsSoundAt Stage.awaiting_native_b i = IsTuple i × Unit
IsSoundAt Stage.authority_probe_transferred i =
    IsTuple i × (i.serial ≢ 0) × (i.authority_probe_nonce ≢ 0) × (i.authority_client_generation ≢ 0)
IsSoundAt Stage.failed i = IsTuple i × Unit

abbrev pub IsSound : Intent → Type 0
IsSound i = IsSoundAt i.stage i

IsTuple-of : (stage : Stage) (i : Intent) → stage ≢ Stage.idle → IsSoundAt stage i → IsTuple i
IsTuple-of Stage.idle i h s = absurd (h refl)
IsTuple-of Stage.armed_reason4 i h s = s.0
IsTuple-of Stage.cleanup_exited i h s = s.0
IsTuple-of Stage.master_join_requested i h s = s.0
IsTuple-of Stage.awaiting_native_b i h s = s.0
IsTuple-of Stage.authority_probe_transferred i h s = s.0
IsTuple-of Stage.failed i h s = s.0

-- What an exact probe agrees on.
is_exact_lem :
    (i : Intent) (p : Probe)
    → is_exact i p ≡ true
    → (i.serial ≢ 0) × (p.request_nonce ≢ 0) × (p.client_generation ≢ 0) × (p.identity_hash32 ≢ 0)
unfolding is_exact
is_exact_lem i p h = (ground arith, ground arith, ground arith, ground arith)

adopt-IsTuple : (i : Intent) (p : Probe) → is_exact i p ≡ true → IsTuple i → IsTuple (adopt p i)
unfolding adopt
adopt-IsTuple i p h (master, expedition, no_alias, host, key, hash, once) =
    (master, expedition, no_alias, host, key, (is_exact_lem i p h).3, once)

-- An intent that is taken from a persisted identity which passed all tests.
armed-IsSound :
    (x : ArmInput) (serial : ℕ)
    → reject_reason x (identity_of x) ≡ none
    → IsSound (armed_intent x (identity_of x) serial)
unfolding armed_intent reject_reason
armed-IsSound x serial h = (
  (
    ground arith,
    ground arith,
    ground arith,
    ground arith,
    ground arith,
    ground arith,
    ground arith,
  ),
  refl,
)

is_exact_observer_lem :
    (i : Intent) (p : Probe) → is_exact_observer i p ≡ true → is_exact i p ≡ true
unfolding is_exact_observer
is_exact_observer_lem i p h = ground arith

classify-cases : (i : Intent) (p : Probe) → (classify i p ≡ Exit.waiting) ⊎ (is_exact i p ≡ true)
unfolding classify
classify-cases i p = elim (Bool-cases (is_exact_observer i p)) [
  | inr f ↦ inl (rw f refl)
  | inl t ↦ inr (is_exact_observer_lem i p t)
]

exited-IsSound :
    (i : Intent) (p : Probe) (now : ℕ) (e : Exit)
    → IsTuple i
    → i.master_join_attempts ≡ 0
    → (e ≡ Exit.waiting) ⊎ (is_exact i p ≡ true)
    → IsSound (exited_intent p now e i)
unfolding exited_intent adopt
exited-IsSound i p now Exit.transferred t a (inl w) = cc
exited-IsSound i p now Exit.transferred t a (inr x) =
    let (serial, nonce, generation, hash) = is_exact_lem i p x in
    (adopt-IsTuple i p x t, serial, nonce, generation)
exited-IsSound i p now Exit.terminal_completed t a h = tt
exited-IsSound i p now Exit.terminal_failed t a (inl w) = cc
exited-IsSound i p now Exit.terminal_failed t a (inr x) = (adopt-IsTuple i p x t, tt)
exited-IsSound i p now Exit.waiting t a h = (t, a)

log-IsSoundAt :
    (stage : Stage) (i : Intent) (now : ℕ)
    → IsSoundAt stage i
    → IsSoundAt stage (record i { last_log_ms = now })
log-IsSoundAt Stage.idle i now h = tt
log-IsSoundAt Stage.armed_reason4 i now h = h
log-IsSoundAt Stage.cleanup_exited i now h = h
log-IsSoundAt Stage.master_join_requested i now h = h
log-IsSoundAt Stage.awaiting_native_b i now h = h
log-IsSoundAt Stage.authority_probe_transferred i now h = h
log-IsSoundAt Stage.failed i now h = h

IsTuple-at :
    (i : Intent) (a b : Stage)
    → (i.stage ≡ a) ⊎ (i.stage ≡ b)
    → a ≢ Stage.idle
    → b ≢ Stage.idle
    → IsSound i
    → IsTuple i
IsTuple-at i a b (inl st) na nb h = IsTuple-of i.stage i (λ z. na (sym st ∙ z)) h
IsTuple-at i a b (inr st) na nb h = IsTuple-of i.stage i (λ z. nb (sym st ∙ z)) h

pub Edit-IsSound : {i j : Intent} → Edit i j → IsSound i → IsSound j
unfolding adopt
Edit-IsSound (stays e) h = rw e h
Edit-IsSound {i = i} (exits p now st e) h =
    let (t, a) = (rw st at h) in
    rw e (exited-IsSound i p now (classify i p) t a (classify-cases i p))
Edit-IsSound {i = i} (transfers p x st e) h =
    let (serial, nonce, generation, hash) = is_exact_lem i p x in
    let t =
      IsTuple-at i Stage.master_join_requested Stage.awaiting_native_b st (λ z. cc) (λ z. cc) h in
    rw e (adopt-IsTuple i p x t, serial, nonce, generation)
Edit-IsSound {i = i} (fails n1 n2 e) h = rw e (IsTuple-of i.stage i n1 h, tt)
Edit-IsSound {i = i} (awaits now st e) h =
    let t =
      IsTuple-at i Stage.cleanup_exited Stage.master_join_requested st (λ z. cc) (λ z. cc) h in
    rw e (t, tt)
Edit-IsSound {i = i} (joins now call st ne e) h =
    let (master, expedition, no_alias, host, key, hash, once) = (rw st at h).0 in
    rw e ((master, expedition, no_alias, host, key, hash, omega arith), refl, ne)
Edit-IsSound {i = i} (logs now e) h = rw e (log-IsSoundAt i.stage i now h)
Edit-IsSound (ends st e) h = rw e tt
Edit-IsSound {i = i} (gives_up now st e) h =
    let t = IsTuple-of i.stage i (λ z. cc) h in rw e (t, tt)
Edit-IsSound {i = i} (rebinds nonce st ne e) h =
    let (t, serial, n, generation) = (rw st at h) in rw (e, st) (t, serial, ne, generation)

arm-IsSound : (x : ArmInput) (s : State) → IsSound s.intent → IsSound (arm x s).1.intent
unfolding armed_state
arm-IsSound x s h = elim (arm-cases x s) [
  | inl e ↦ rw e h
  | inr (e, r, a) ↦ rw e (armed-IsSound x (next_serial s) r)
]

-- Along every run from a state in which the intent is sound, it stays sound: unless it is idle, its
-- two lobbies are set and different, its host, record key and identity hash are set, and it asked for
-- a join once at most; before the join it asked for none; while the join is pending it holds the call;
-- and an intent that is transferred to a probe holds a serial, a nonce and a generation.
pub Run-IsSound :
    {s t : State} {n : ℕ} {js : List ℕ} → Run s n js t → IsSound s.intent → IsSound t.intent
unfolding advance
Run-IsSound here h = h
Run-IsSound (act r a) h = Edit-IsSound (Act-IsEdit a).0 (Run-IsSound r h)
Run-IsSound (arm_next {t = t} r x) h = arm-IsSound x t (Run-IsSound r h)
Run-IsSound (tick {t = t} r x) h =
    Edit-IsSound (advance_from-IsEdit x t.intent t).0 (Run-IsSound r h)
