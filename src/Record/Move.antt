-- ===== src/Record/Move.antt =====
-- `MoveCachedReconnectRecordToInactive`: where the entry goes, and what stays.
use revenant_fix.Prelude.{
  ℕ, ◌<◌, ◌≡◌, ◌≢◌, refl, ap, ◌∙◌, true, false, none, some, length, get_or, set, arith, count,
  find_index, find_elem, find-cases, find_elem-some, count-set, find_elem-set, count-pos,
  count-zero-find, find_elem_unique, length-set, inl, inr, ℕ_discrete, find_elem-none, keep_bit,
}
use revenant_fix.Record.{Entry, MembershipState, empty_entry}
use revenant_fix.Record.Cache.{
  Cache, has, demoted, drop_inactive, insert_inactive, move_to_inactive, next32,
}
use revenant_fix.Record.Count.{
  length-insert, insert-place, count-insert-le, displaces, find-insert_ne,
}
use revenant_fix.Record.Inv.{IsValid}

drop_absent : (c : Cache) (id : ℕ) → count (has id) c.inactive ≡ 0 → drop_inactive c id ≡ c
unfolding drop_inactive
drop_absent c id h = elim (find-cases (has id) c.inactive empty_entry) [
  | inl (f, k) ↦ rw (f, drop_inactive) refl
  | inr (i, f, lt, t) ↦ absurd (omega (arith, count-pos (has id) c.inactive i empty_entry lt t))
]

-- The cache without the active entry `i`.
abbrev cleared : Cache → ℕ → Cache
cleared c i = record c { active = set c.active i empty_entry }

active-insert : (c : Cache) (e : Entry) → (insert_inactive c e).active ≡ c.active
unfolding insert_inactive
active-insert c e = ground arith

pub move_zero :
    (c : Cache) (id since observed : ℕ) → id ≡ 0 → move_to_inactive c id since observed ≡ c
unfolding move_to_inactive
move_zero c id since observed h = ground arith

module _ (c : Cache) (id since observed : ℕ) (v : IsValid c) (z : id ≢ 0) where
  -- A move computes to this where the entry is found.
  move_found :
      (i : ℕ)
      → find_index (has id) c.active ≡ some i
      → i < length c.active
      → has id (get_or c.active i empty_entry) ≡ true
      → move_to_inactive c id since observed
        ≡ record (insert_inactive
            (cleared c i)
            (demoted (get_or c.active i empty_entry) since observed)) {
              generation = next32 c.generation;
            }
  unfolding move_to_inactive
  move_found i f lt t =
      let absent : count (has id) c.inactive ≡ 0 =
        omega (arith, v.once id z, count-pos (has id) c.active i empty_entry lt t) in
      rw (drop_absent (cleared c i) id absent) at (go f)
    where
      go :
          find_index (has id) c.active ≡ some i
          → move_to_inactive c id since observed
            ≡ record (insert_inactive
                (drop_inactive (cleared c i) id)
                (demoted (get_or c.active i empty_entry) since observed)) {
                  generation = next32 c.generation;
                }
      go f = ground arith

  move-inactive :
      (i : ℕ)
      → find_index (has id) c.active ≡ some i
      → i < length c.active
      → has id (get_or c.active i empty_entry) ≡ true
      → find_elem
          (has id)
          (insert_inactive
            (cleared c i)
            (demoted (get_or c.active i empty_entry) since observed)).inactive
        ≡ some (demoted (get_or c.active i empty_entry) since observed)
  move-inactive i f lt t =
      let e = demoted (get_or c.active i empty_entry) since observed in
      let (j, below, at) = insert-place (cleared c i) e v.inactive_size in
      let xs = (insert_inactive (cleared c i) e).inactive in
      let once = count-insert-le (cleared c i) e id v.inactive_size in
      let found =
        find_elem_unique (has id) xs j empty_entry
          (omega (arith, length-insert (cleared c i) e, v.inactive_size)) (rw at t)
          (ground (arith, v.once id z, count-pos (has id) c.active i empty_entry lt t)) in
      found ∙ ap some at

-- Moving a player's active entry takes it out of the active table, and puts it into the inactive
-- one: marked inactive since the first time given, with the membership inactive, the bit 6 of its
-- evidence kept and no other, the second time given as its time of observation, and the next
-- revision. Its other fields are unchanged, and the generation of the cache is the next one.
pub move_to_inactive_lem :
    (c : Cache) (id since observed : ℕ) (e : Entry)
    → IsValid c
    → id ≢ 0
    → find_elem (has id) c.active ≡ some e
    → (find_elem (has id) (move_to_inactive c id since observed).active ≡ none)
      × (find_elem (has id) (move_to_inactive c id since observed).inactive
          ≡ some (record e {
            is_inactive = true;
            inactive_since_ms = since;
            identity = record (e.identity) {
              membership_state = MembershipState.inactive;
              evidence_mask = keep_bit e.identity.evidence_mask 6;
              observed_ms = observed;
              snapshot_revision = next32 e.identity.snapshot_revision;
            };
          }))
      × ((move_to_inactive c id since observed).generation ≡ next32 c.generation)
move_to_inactive_lem c id since observed e v z h =
    let (i, f, lt, at, t) = find_elem-some (has id) c.active empty_entry e h in
    let here : has id (get_or c.active i empty_entry) ≡ true = rw at t in
    let gone = count-set (has id) c.active i empty_entry empty_entry lt in
    rw (move_found c id since observed v z i f lt here) (
      active_of_insert i lt here,
      move-inactive c id since observed v z i f lt here
          ∙ ap (λ x. some (demoted x since observed)) at,
      refl,
    )
  where
    active_of_insert :
        (i : ℕ)
        → i < length c.active
        → has id (get_or c.active i empty_entry) ≡ true
        → find_elem
            (has id)
            (insert_inactive
              (cleared c i)
              (demoted (get_or c.active i empty_entry) since observed)).active
          ≡ none
    active_of_insert i lt t =
        rw (active-insert (cleared c i) (demoted (get_or c.active i empty_entry) since observed)) (
          count-zero-find (has id) (set c.active i empty_entry)
            (ground (arith, v.once id z, count-set (has id) c.active i empty_entry empty_entry lt)))

move_absent :
    (c : Cache) (id since observed : ℕ)
    → find_index (has id) c.active ≡ none
    → move_to_inactive c id since observed ≡ c
unfolding move_to_inactive
move_absent c id since observed h = ground arith

-- A move leaves the entries of another player where they are and as they are, unless the inactive
-- table is full and the player's entry is the oldest of it.
pub find-move_ne :
    (c : Cache) (id since observed q : ℕ)
    → IsValid c
    → id ≢ 0
    → q ≢ id
    → displaces c q ≡ false
    → (find_elem (has q) (move_to_inactive c id since observed).active ≡ find_elem (has q) c.active)
      × (find_elem (has q) (move_to_inactive c id since observed).inactive
          ≡ find_elem (has q) c.inactive)
find-move_ne c id since observed q v z h d = elim (find-cases (has id) c.active empty_entry) [
  | inl (f, k) ↦ rw (move_absent c id since observed f) (refl, refl)
  | inr (i, f, lt, t) ↦
      let e = demoted (get_or c.active i empty_entry) since observed in
      rw (move_found c id since observed v z i f lt t) (
        rw (active-insert (cleared c i) e)
            (find_elem-set (has q) c.active i empty_entry empty_entry (ground arith) refl),
        find-insert_ne (cleared c i) e q v.inactive_size (ground arith) d,
      )
]

-- The active table loses no other entry, full or not.
pub find_active-move_ne :
    (c : Cache) (id since observed q : ℕ)
    → IsValid c
    → id ≢ 0
    → q ≢ id
    → find_elem (has q) (move_to_inactive c id since observed).active ≡ find_elem (has q) c.active
find_active-move_ne c id since observed q v z h = elim (find-cases (has id) c.active empty_entry) [
  | inl (f, k) ↦ rw (move_absent c id since observed f) refl
  | inr (i, f, lt, t) ↦
      let e = demoted (get_or c.active i empty_entry) since observed in
      rw (move_found c id since observed v z i f lt t, active-insert (cleared c i) e)
        (find_elem-set (has q) c.active i empty_entry empty_entry (ground arith) refl)
]

-- A move keeps the sizes of both tables, and one entry at most for a player in the two.
pub move_to_inactive-IsValid :
    (c : Cache) (id since observed : ℕ) → IsValid c → IsValid (move_to_inactive c id since observed)
move_to_inactive-IsValid c id since observed v = elim (ℕ_discrete id 0) [
  | yes p ↦ rw (move_zero c id since observed p) v
  | no z ↦ elim (find-cases (has id) c.active empty_entry) [
    | inl (f, k) ↦ rw (move_absent c id since observed f) v
    | inr (i, f, lt, t) ↦ rw (move_found c id since observed v z i f lt t) (valid z i lt t)
  ]
]
  where
    valid :
        id ≢ 0
        → (i : ℕ) → i < length c.active
        → has id (get_or c.active i empty_entry) ≡ true
        → IsValid
            (record (insert_inactive
              (cleared c i)
              (demoted (get_or c.active i empty_entry) since observed)) {
                generation = next32 c.generation;
              })
    valid z i lt t =
        let e = demoted (get_or c.active i empty_entry) since observed in
        record {
          active_size =
              rw (active-insert (cleared c i) e)
                (omega (arith, length-set c.active i empty_entry, v.active_size));
          inactive_size = omega (arith, length-insert (cleared c i) e, v.inactive_size);
          once = λ q k. rw (active-insert (cleared c i) e) (
              let gone = count-set (has q) c.active i empty_entry empty_entry lt in
              let more = count-insert-le (cleared c i) e q v.inactive_size in
              let old = v.once q k in ground arith);
        }

-- Without an active entry the call does nothing.
pub move_to_inactive-absent :
    (c : Cache) (id since observed : ℕ)
    → find_elem (has id) c.active ≡ none
    → move_to_inactive c id since observed ≡ c
move_to_inactive-absent c id since observed h = elim (find-cases (has id) c.active empty_entry) [
  | inl (f, k) ↦ move_absent c id since observed f
  | inr (i, f, lt, t) ↦ absurd (
      omega
        (arith, count-pos (has id) c.active i empty_entry lt t, find_elem-none (has id) c.active h))
]
