-- ===== src/Publish/Pending.antt =====
-- Which snapshots stay pending, and the second loop of the host, in
-- `AdvanceBhrcFullPgdSnapshotPublication` of src/reconnect_fix.cpp.
use revenant_fix.Prelude.{
  ℕ, ◌+◌, ◌≡◌, ◌≢◌, ◌≤◌, ◌<◌, refl, Bool, true, false, ◌&&◌, not, List, [], ◌∷◌, arith, ◌==◌,
  Bool-cases, inl, inr, get_or, get_or-set_self, get_or-set_ne, count, find-cases, set, length,
  count-pos, place_unique,
}
use mathlib.Core.Bool.{true≢false}
use revenant_fix.Pgd.{SnapshotKey, HotSnapshot, empty_snapshot}
use revenant_fix.Pgd.Store.{find_snapshot, is_exact}
use revenant_fix.Transfer.{ChunkPacket}
use revenant_fix.Publish.{mark_published, relay_to, relay}

-- The snapshot that was sent under a key: its revision and its fingerprint are those of the key.
abbrev pub IsSent : SnapshotKey → HotSnapshot → Type 0
IsSent key s =
    (s.owner_steam_id ≡ key.owner_steam_id)
    × (s.master_lobby_id ≡ key.master_lobby_id)
    × (s.expedition_lobby_id ≡ key.expedition_lobby_id)
    × (s.authority_commit_seq ≡ key.authority_commit_seq)
    × (s.snapshot_revision ≡ key.snapshot_revision)
    × (s.payload_hash32 ≡ key.payload_hash32)

exact-IsSent :
    (key : SnapshotKey) (s : HotSnapshot)
    → is_exact key.owner_steam_id key.master_lobby_id key.expedition_lobby_id
        key.authority_commit_seq s
      ≡ true
    → (s.snapshot_revision == key.snapshot_revision && s.payload_hash32 == key.payload_hash32)
      ≡ true
    → IsSent key s
exact-IsSent key s h k =
    (ground arith, ground arith, ground arith, ground arith, ground arith, ground arith)

module _ (now : ℕ) (key : SnapshotKey) (xs : List HotSnapshot) where
  -- What the mark writes into a snapshot.
  abbrev published : HotSnapshot → HotSnapshot
  published s = record s { publish_pending = false; last_publish_tick_ms = now }

  abbrev is_own : HotSnapshot → Bool
  is_own =
      is_exact key.owner_steam_id key.master_lobby_id key.expedition_lobby_id
        key.authority_commit_seq

  -- Where a table has a snapshot that was sent under the key, and no second one for its place, the
  -- mark writes there.
  published_at :
      (i : ℕ)
      → count is_own xs ≤ 1
      → i < length xs
      → (get_or xs i empty_snapshot).valid ≡ true
      → IsSent key (get_or xs i empty_snapshot)
      → mark_published now key xs ≡ set xs i (published (get_or xs i empty_snapshot))
  unfolding mark_published find_snapshot
  published_at i once lt valid (o, m, e, a, r, h) =
      let own : is_own (get_or xs i empty_snapshot) ≡ true = ground (arith, valid, o, m, e, a) in
      elim (find-cases is_own xs empty_snapshot) [
        | inl (f, c) ↦ absurd (omega (arith, c, count-pos is_own xs i empty_snapshot lt own))
        | inr (j, f, below, t) ↦
            let same : j ≡ i = place_unique is_own xs j i empty_snapshot once below lt t own in
            let sent : ((get_or xs i empty_snapshot).snapshot_revision == key.snapshot_revision
                  && (get_or xs i empty_snapshot).payload_hash32 == key.payload_hash32)
                ≡ true =
              ground (arith, r, h) in
            rw (mark_published, f, same, sent) refl
      ]

  -- Where no snapshot was sent under the key, the mark does nothing.
  published_none :
      ((i : ℕ) → ¬ ((i < length xs) × IsSent key (get_or xs i empty_snapshot)))
      → mark_published now key xs ≡ xs
  unfolding mark_published find_snapshot
  published_none absent = elim (find-cases is_own xs empty_snapshot) [
    | inl (f, c) ↦ rw (mark_published, f) refl
    | inr (j, f, lt, t) ↦
        let s = get_or xs j empty_snapshot in
        elim (Bool-cases (
          s.snapshot_revision == key.snapshot_revision && s.payload_hash32 == key.payload_hash32)) [
            | inr g ↦ rw (mark_published, f, g) refl
            | inl g ↦ absurd (absent j (lt, exact-IsSent key s t g))
          ]
  ]

-- In a table with one snapshot at most for the place of the key, marking the key as published finds
-- the valid snapshot that was sent under it, with its revision and fingerprint, clears its pending
-- mark and notes the time, and leaves every other place as it is. Where no snapshot of the table was
-- sent under the key, since none is there or it was replaced, the table stays as it is.
pub mark_published_lem :
    (now : ℕ) (key : SnapshotKey) (xs : List HotSnapshot)
    → count
        (is_exact key.owner_steam_id key.master_lobby_id key.expedition_lobby_id
          key.authority_commit_seq)
        xs
      ≤ 1
    → ((i : ℕ)
        → i < length xs
        → (get_or xs i empty_snapshot).valid ≡ true
        → IsSent key (get_or xs i empty_snapshot)
        → (get_or (mark_published now key xs) i empty_snapshot
            ≡ record (get_or xs i empty_snapshot) {
              publish_pending = false;
              last_publish_tick_ms = now;
            })
          × ((j : ℕ)
              → i ≢ j
              → get_or (mark_published now key xs) j empty_snapshot ≡ get_or xs j empty_snapshot))
      × (((i : ℕ) → ¬ ((i < length xs) × IsSent key (get_or xs i empty_snapshot)))
          → mark_published now key xs ≡ xs)
mark_published_lem now key xs once = (
  λ i lt valid sent.
      let v = published now key xs (get_or xs i empty_snapshot) in
      rw (published_at now key xs i once lt valid sent)
        (get_or-set_self xs i v empty_snapshot lt, λ j n. get_or-set_ne xs i j v empty_snapshot n),
  λ absent. published_none now key xs absent,
)

module _ (transport : ChunkPacket → Bool) (key : SnapshotKey) (xs : List HotSnapshot) where
  relay_idle :
      (is_target : ℕ → Bool) (peers : List ℕ)
      → count is_target peers ≡ 0
      → relay_to transport is_target peers key xs
        ≡ record { completed = true; had_target = false; packets = [] }
  unfolding relay_to count
  relay_idle is_target [] h = refl
  relay_idle is_target (peer ∷ peers) h = elim (Bool-cases (is_target peer)) [
    | inr f ↦ rw (relay_to, f) (relay_idle is_target peers (ground (arith, h, f)))
    | inl t ↦ absurd (ground (arith, h, t))
  ]

  had_target_lem :
      (is_target : ℕ → Bool) (peers : List ℕ)
      → (relay_to transport is_target peers key xs).had_target ≡ false
      → count is_target peers ≡ 0
  unfolding relay_to count
  had_target_lem is_target [] h = refl
  had_target_lem is_target (peer ∷ peers) h = elim (Bool-cases (is_target peer)) [
    | inr f ↦ rw f (omega (arith, had_target_lem is_target peers (rw (relay_to, f) at h)))
    | inl t ↦ absurd (true≢false (rw (relay_to, t) at h))
  ]

  targets_le :
      (local : ℕ) (peers : List ℕ)
      → key.owner_steam_id ≡ local
      → count (λ peer. not (peer == 0)) peers
        ≤ count (λ peer. not (peer == 0) && not (peer == key.owner_steam_id)) peers
          + count (λ peer. peer == local) peers
  unfolding count
  targets_le local [] h = omega arith
  targets_le local (peer ∷ peers) h = ground (arith, h, targets_le local peers h)

  -- The second loop of the host sends nothing, where the local player is not in the table of its own
  -- peers: the relay is the one loop over the peers other than the owner of the data.
  pub relay_lem :
      (local : ℕ) (peers : List ℕ)
      → count (λ peer. peer == local) peers ≡ 0
      → relay transport local peers key xs
        ≡ relay_to transport
            (λ peer. not (peer == 0) && not (peer == key.owner_steam_id))
            peers
            key
            xs
  unfolding relay
  relay_lem local peers h =
      let p = λ (peer : ℕ). not (peer == 0) && not (peer == key.owner_steam_id) in
      let others = relay_to transport p peers key xs in
      elim (Bool-cases (not others.had_target && key.owner_steam_id == local)) [
        | inr f ↦ rw (relay, f) refl
        | inl t ↦
            let none_p = had_target_lem p peers (ground (arith, t)) in
            let le = targets_le local peers (ground (arith, t)) in
            let first = relay_idle p peers none_p in
            let second =
              relay_idle (λ peer. not (peer == 0)) peers (omega (arith, le, none_p, h)) in
            rw (relay, t, second, first) refl
      ]
