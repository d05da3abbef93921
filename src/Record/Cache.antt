-- ===== src/Record/Cache.antt =====
-- The operations of the cache. A pointer to an entry is the table that it stands in and its index.
-- The lock and the log lines are left out; a reading of `GetTickCount` is an argument.
use revenant_fix.Prelude.{
  ℕ, ◌+◌, ◌%◌, ◌^◌, Bool, true, false, ◌&&◌, ◌||◌, not, Option, none, some, List, [], ◌∷◌, ltb, leb,
  ◌==◌, if◌then◌else◌, get_or, set, find_index, shift_out, keep_bit, clear_bit, set_bit,
}
use revenant_fix.Record.{Entry, MembershipState, empty_entry}

abbrev pub active_slots : ℕ
active_slots = 6

abbrev pub inactive_slots : ℕ
inactive_slots = 3

-- `g_bhrc_active_record_cache`, `g_bhrc_inactive_record_cache`, `g_bhrc_record_cache_generation`.
pub record Cache : Type 0 where
  pub active : List Entry
  pub inactive : List Entry
  pub generation : ℕ

pub data Pointer : Type 0 where
  in_active : ℕ → Pointer
  in_inactive : ℕ → Pointer

-- The test of the loops: `entry.valid && entry.steam_id == steam_id`.
abbrev pub has : ℕ → Entry → Bool
has steam_id e = e.valid && e.steam_id == steam_id

abbrev pub is_free : Entry → Bool
is_free e = not e.valid

abbrev pub next32 : ℕ → ℕ
next32 n = (n + 1) % 2 ^ 32

abbrev pub deref : Cache → Pointer → Entry
deref c (in_active i) = get_or c.active i empty_entry
deref c (in_inactive i) = get_or c.inactive i empty_entry

abbrev pub store : Cache → Pointer → Entry → Cache
store c (in_active i) e = record c { active = set c.active i e }
store c (in_inactive i) e = record c { inactive = set c.inactive i e }

-- `FindActiveReconnectRecordBySteamId`.
unfoldable pub find_active : Cache → ℕ → Option ℕ
find_active c steam_id = if steam_id == 0 then none else find_index (has steam_id) c.active

-- `FindInactiveReconnectRecordBySteamId`, the entry and `out_index` being one index.
unfoldable pub find_inactive : Cache → ℕ → Option ℕ
find_inactive c steam_id = if steam_id == 0 then none else find_index (has steam_id) c.inactive

-- `FindCachedReconnectRecordBySteamId`.
unfoldable pub find_cached : Cache → ℕ → Option Pointer
find_cached c steam_id = if steam_id == 0 then none else elim (find_index (has steam_id) c.active) [
  | some i ↦ some (in_active i)
  | none ↦ elim (find_index (has steam_id) c.inactive) [
    | some i ↦ some (in_inactive i)
    | none ↦ none
  ]
]

-- `RemoveInactiveReconnectRecordAtIndex`.
unfoldable pub remove_inactive_at : Cache → ℕ → Cache
remove_inactive_at c i =
    if leb inactive_slots i then c else record c { inactive = shift_out c.inactive i empty_entry }

-- `FirstFreeActiveReconnectRecordSlot`.
unfoldable pub first_free_active : Cache → Option ℕ
first_free_active c = find_index is_free c.active

-- `SnapshotCachedReconnectRecordBySteamId`: the result, and what `*out` holds.
unfoldable pub snapshot : Cache → ℕ → Bool × Entry
snapshot c steam_id = elim (find_cached c steam_id) [
  | none ↦ (false, empty_entry)
  | some p ↦ if not (deref c p).valid then (false, empty_entry) else (true, deref c p)
]

-- A full inactive table gives up its first entry, and the last place becomes free.
unfoldable pub release_oldest : Cache → Cache
release_oldest c = record c { inactive = shift_out c.inactive 0 empty_entry }

-- `AllocateInactiveReconnectRecordBySteamId`.
unfoldable pub allocate_inactive : Cache → ℕ → Option ℕ × Cache
allocate_inactive c steam_id =
    if steam_id == 0 then (none, c) else elim (find_inactive c steam_id) [
      | some i ↦ (some i, c)
      | none ↦ elim (find_index is_free c.inactive) [
        | some i ↦ (some i, c)
        | none ↦ (some 2, release_oldest c)
      ]
    ]

-- The entry that `AllocateActiveReconnectRecordBySteamId` copies to the active table.
abbrev pub promoted : Entry → Entry
promoted e = record e { is_inactive = false; inactive_since_ms = 0 }

-- `AllocateActiveReconnectRecordBySteamId`.
unfoldable pub allocate_active : Cache → ℕ → Option ℕ × Cache
allocate_active c steam_id = if steam_id == 0 then (none, c) else elim (find_active c steam_id) [
  | some i ↦ (some i, c)
  | none ↦ elim (find_inactive c steam_id) [
    | some j ↦ elim (first_free_active c) [
      | some slot ↦ (
        some slot,
        record (remove_inactive_at
            (record c { active = set c.active slot (promoted (get_or c.inactive j empty_entry)) })
            j) { generation = next32 c.generation },
      )
      | none ↦ (none, c)
    ]
    | none ↦ elim (first_free_active c) [ some slot ↦ (some slot, c) | none ↦ (none, c) ]
  ]
]

-- What `MoveCachedReconnectRecordToInactive` writes into the entry that it moves, with its two
-- readings of the clock.
abbrev pub demoted : Entry → ℕ → ℕ → Entry
demoted e since observed = record e {
  is_inactive = true;
  inactive_since_ms = since;
  identity = record (e.identity) {
    membership_state = MembershipState.inactive;
    evidence_mask = keep_bit e.identity.evidence_mask 6;
    observed_ms = observed;
    snapshot_revision = next32 e.identity.snapshot_revision;
  };
}

-- Its loop that drops an entry of the same player from the inactive table.
unfoldable pub drop_inactive : Cache → ℕ → Cache
drop_inactive c steam_id = elim (find_index (has steam_id) c.inactive) [
  | some i ↦ remove_inactive_at c i
  | none ↦ c
]

-- Its choice of a place: the first free one, or the last one after the oldest entry is released.
unfoldable pub insert_inactive : Cache → Entry → Cache
insert_inactive c e = elim (find_index is_free c.inactive) [
  | some i ↦ record c { inactive = set c.inactive i e }
  | none ↦ record c { inactive = set (release_oldest c).inactive 2 e }
]

-- `MoveCachedReconnectRecordToInactive`.
unfoldable pub move_to_inactive : Cache → ℕ → ℕ → ℕ → Cache
move_to_inactive c steam_id since observed =
    if steam_id == 0 then c else elim (find_index (has steam_id) c.active) [
      | none ↦ c
      | some i ↦
          let moving : Entry = get_or c.active i empty_entry in
          let cleared : Cache = record c { active = set c.active i empty_entry } in
          record (insert_inactive (drop_inactive cleared steam_id)
            (demoted moving since observed)) { generation = next32 c.generation }
    ]

-- The entry that `SetCachedReconnectTransportEvidence` leaves.
abbrev pub with_transport : Entry → Bool → ℕ → Entry
with_transport e up now =
    let before : ℕ = e.identity.evidence_mask in
    let after : ℕ = if up then set_bit before 0 else clear_bit before 0 in
    record e {
      identity = record (e.identity) {
        evidence_mask = after;
        observed_ms = now;
        snapshot_revision =
            if before == after
            then e.identity.snapshot_revision
            else next32 e.identity.snapshot_revision;
      };
    }

-- `SetCachedReconnectTransportEvidence`.
unfoldable pub set_transport : Cache → ℕ → Bool → ℕ → Cache
set_transport c steam_id up now = elim (find_cached c steam_id) [
  | none ↦ c
  | some p ↦
      let e : Entry = deref c p in
      let e' : Entry = with_transport e up now in
      let c' : Cache = store c p e' in
      if e.identity.evidence_mask == e'.identity.evidence_mask
      then c'
      else record c' { generation = next32 c.generation }
]

-- Whether the game holds a live record of the entry's player; `live` looks a key up in the session.
abbrev pub is_native_live : (ℕ → Bool) → Entry → Bool
is_native_live live e = not (e.record_key == 0) && (e.record_key == e.steam_id && live e.record_key)

-- The first loop of `ReconcileCachedReconnectMembershipFromNative`.
unfoldable pub missing_live : (ℕ → Bool) → ℕ → List Entry → List ℕ
missing_live live n [] = []
missing_live live n (e ∷ es) =
    let skipped : Bool = not e.valid || e.steam_id == 0 in
    let taken : Bool = not skipped && (not (is_native_live live e) && ltb n active_slots) in
    let rest : List ℕ = missing_live live (if taken then n + 1 else n) es in
    if taken then e.steam_id ∷ rest else rest

-- Its second loop; `clock n` holds the two readings of the clock in round `n`.
unfoldable pub move_all : (ℕ → ℕ × ℕ) → ℕ → Cache → List ℕ → Cache
move_all clock n c [] = c
move_all clock n c (id ∷ ids) =
    move_all clock (n + 1) (move_to_inactive c id (clock n).0 (clock n).1) ids

-- `ReconcileCachedReconnectMembershipFromNative`, where the game's session can be read.
unfoldable pub reconcile : (ℕ → Bool) → (ℕ → ℕ × ℕ) → Cache → Cache
reconcile live clock c = move_all clock 0 c (missing_live live 0 c.active)
