-- ===== src/Record/Reconcile.antt =====
-- `ReconcileCachedReconnectMembershipFromNative`: exactly the players with a live record stay active.
use revenant_fix.Prelude.{
  ℕ, ◌+◌, ◌≤◌, ◌≡◌, ◌≢◌, refl, ◌∙◌, Bool, not, none, some, List, [], ◌∷◌, ◌==◌, length, arith, bit,
  count, find_elem, inl, inr, ℕ_discrete, if◌then◌else◌, Option-cases, Bool-cases,
}
use revenant_fix.Record.{Entry}
use revenant_fix.Record.Cache.{
  Cache, has, active_slots, is_native_live, missing_live, move_to_inactive, move_all, reconcile,
}
use revenant_fix.Record.Inv.{IsValid}
use revenant_fix.Record.Move.{
  move_to_inactive_lem, move_to_inactive-IsValid, find_active-move_ne, move_zero,
  move_to_inactive-absent,
}

abbrev is : ℕ → ℕ → Bool
is q id = id == q

-- A player without an active entry is not collected.
missing_absent :
    (live : ℕ → Bool) (n q : ℕ) (es : List Entry)
    → count (has q) es ≡ 0
    → count (is q) (missing_live live n es) ≡ 0
unfolding missing_live count
missing_absent live n q [] h = refl
missing_absent live n q (e ∷ es) h =
    ground (arith, missing_absent live n q es, missing_absent live (n + 1) q es)

-- A player with one is collected exactly if the game holds no live record of it.
missing_present :
    (live : ℕ → Bool) (n q : ℕ) (es : List Entry) (e : Entry)
    → q ≢ 0
    → n + length es ≤ active_slots
    → count (has q) es ≤ 1
    → find_elem (has q) es ≡ some e
    → count (is q) (missing_live live n es) ≡ bit (not (is_native_live live e))
unfolding missing_live count find_elem
missing_present live n q [] e z small u h = cc
missing_present live n q (x ∷ es) e z small u h = ground (
  arith,
  missing_absent live n q es,
  missing_absent live (n + 1) q es,
  missing_present live n q es e z,
  missing_present live (n + 1) q es e z,
)

move_all-IsValid :
    (clock : ℕ → ℕ × ℕ) (n : ℕ) (c : Cache) (ids : List ℕ)
    → IsValid c
    → IsValid (move_all clock n c ids)
unfolding move_all
move_all-IsValid clock n c [] v = v
move_all-IsValid clock n c (id ∷ ids) v =
    move_all-IsValid clock (n + 1) (move_to_inactive c id (clock n).0 (clock n).1) ids
      (move_to_inactive-IsValid c id (clock n).0 (clock n).1 v)

find-move_same :
    (c : Cache) (id since observed q : ℕ)
    → IsValid c
    → q ≢ id
    → find_elem (has q) (move_to_inactive c id since observed).active ≡ find_elem (has q) c.active
find-move_same c id since observed q v h = elim (ℕ_discrete id 0) [
  | yes p ↦ rw (move_zero c id since observed p) refl
  | no z ↦ find_active-move_ne c id since observed q v z h
]

-- A player who is not on the list stays as it is.
move_all_other :
    (clock : ℕ → ℕ × ℕ) (n q : ℕ) (ids : List ℕ) (c : Cache)
    → IsValid c
    → count (is q) ids ≡ 0
    → find_elem (has q) (move_all clock n c ids).active ≡ find_elem (has q) c.active
unfolding move_all count
move_all_other clock n q [] c v h = refl
move_all_other clock n q (id ∷ ids) c v h =
    let (since, observed) = clock n in
    move_all_other clock (n + 1) q ids (move_to_inactive c id since observed)
      (move_to_inactive-IsValid c id since observed v) (ground arith)
    ∙ find-move_same c id since observed q v (ground arith)

-- One who is not active does not become so.
move_all_gone :
    (clock : ℕ → ℕ × ℕ) (n q : ℕ) (ids : List ℕ) (c : Cache)
    → IsValid c
    → find_elem (has q) c.active ≡ none
    → q ≢ 0
    → find_elem (has q) (move_all clock n c ids).active ≡ none
unfolding move_all
move_all_gone clock n q [] c v h z = h
move_all_gone clock n q (id ∷ ids) c v h z =
    let (since, observed) = clock n in
    move_all_gone clock (n + 1) q ids (move_to_inactive c id since observed)
      (move_to_inactive-IsValid c id since observed v) (step since observed) z
  where
    step :
        (since observed : ℕ)
        → find_elem (has q) (move_to_inactive c id since observed).active ≡ none
    step since observed = elim (ℕ_discrete q id) [
      | no p ↦ find-move_same c id since observed q v p ∙ h
      | yes p ↦ rw (← p, move_to_inactive-absent c q since observed h) h
    ]

-- One who is on the list is not active afterwards.
move_all_listed :
    (clock : ℕ → ℕ × ℕ) (n q : ℕ) (ids : List ℕ) (c : Cache)
    → IsValid c
    → q ≢ 0
    → count (is q) ids ≢ 0
    → find_elem (has q) (move_all clock n c ids).active ≡ none
unfolding move_all count
move_all_listed clock n q [] c v z h = absurd (h refl)
move_all_listed clock n q (id ∷ ids) c v z h =
    let (since, observed) = clock n in
    let c' = move_to_inactive c id since observed in
    let v' = move_to_inactive-IsValid c id since observed v in
    elim (ℕ_discrete q id) [
      | yes p ↦ move_all_gone clock (n + 1) q ids c' v' (moved since observed p) z
      | no p ↦ move_all_listed clock (n + 1) q ids c' v' z (ground arith)
    ]
  where
    moved :
        (since observed : ℕ)
        → q ≡ id
        → find_elem (has q) (move_to_inactive c id since observed).active ≡ none
    moved since observed p = elim (Option-cases (find_elem (has q) c.active)) [
      | inl e ↦ rw (← p, move_to_inactive-absent c q since observed e) e
      | inr (e, f) ↦ rw (← p) (move_to_inactive_lem c q since observed e v z f).0
    ]

-- After the reconciliation the active table holds, of the entries that it held, exactly those whose
-- record key is the player's identifier and is live in the game's session. The invariant is kept.
pub reconcile_lem :
    (live : ℕ → Bool) (clock : ℕ → ℕ × ℕ) (c : Cache) (q : ℕ) (e : Entry)
    → IsValid c
    → q ≢ 0
    → find_elem (has q) c.active ≡ some e
    → (find_elem (has q) (reconcile live clock c).active
        ≡ (if is_native_live live e then some e else none))
      × IsValid (reconcile live clock c)
unfolding reconcile
reconcile_lem live clock c q e v z h =
    let ids = missing_live live 0 c.active in
    let collected : count (is q) ids ≡ bit (not (is_native_live live e)) =
      missing_present live 0 q c.active e z (omega (arith, v.active_size))
        (omega (arith, v.once q z)) h in
    (
      elim (Bool-cases (is_native_live live e)) [
        | inl t ↦ rw t (move_all_other clock 0 q ids c v (rw t at collected) ∙ h)
        | inr f ↦ rw f (move_all_listed clock 0 q ids c v z (one ids (rw f at collected)))
      ],
      move_all-IsValid clock 0 c ids v,
    )
  where
    one : (ids : List ℕ) → count (is q) ids ≡ 1 → count (is q) ids ≢ 0
    one ids h = omega arith
