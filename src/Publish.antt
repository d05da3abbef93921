-- ===== src/Publish.antt =====
-- The publication of hot snapshots in src/reconnect_fix.cpp: a player sends the own snapshot to the
-- host, and the host relays what it has to the other peers, until all of it was sent.
pub mod Relayed
pub mod Pending
mod Tests
use revenant_fix.Prelude.{
  ℕ, ◌+◌, Bool, true, false, ◌&&◌, ◌||◌, not, Option, none, some, List, [], ◌∷◌, ◌++◌, ◌==◌,
  if◌then◌else◌, get_or, set,
}
use revenant_fix.Pgd.{SnapshotKey, HotSnapshot, empty_snapshot, key_of}
use revenant_fix.Pgd.Store.{copy, find_snapshot}
use revenant_fix.Admission.{Attempt}
use revenant_fix.Transfer.{ChunkPacket, owner_publish, authority_relay}
use revenant_fix.Transfer.Send.{Delivery, send}

-- `MarkBhrcFullPgdSnapshotsForPublish`, for the local player and whether it is the host.
unfoldable pub mark_for_publish : Bool → ℕ → List HotSnapshot → List HotSnapshot
mark_for_publish is_local_host local [] = []
mark_for_publish is_local_host local (s ∷ rest) =
    (if s.valid && (is_local_host || s.owner_steam_id == local)
      then record s { publish_pending = true }
      else s)
    ∷ mark_for_publish is_local_host local rest

-- `MarkBhrcFullPgdSnapshotPublished`.
unfoldable pub mark_published : ℕ → SnapshotKey → List HotSnapshot → List HotSnapshot
mark_published now key xs =
    elim (find_snapshot xs key.owner_steam_id key.master_lobby_id key.expedition_lobby_id
      key.authority_commit_seq) [
        | none ↦ xs
        | some i ↦
            let s : HotSnapshot = get_or xs i empty_snapshot in
            if s.snapshot_revision == key.snapshot_revision
              && s.payload_hash32 == key.payload_hash32
            then set xs i (record s { publish_pending = false; last_publish_tick_ms = now })
            else xs
      ]

-- The first loop of `AdvanceBhrcFullPgdSnapshotPublication`; its list has room for all snapshots.
unfoldable pub pending_keys : List HotSnapshot → List SnapshotKey
pending_keys [] = []
pending_keys (s ∷ rest) =
    if s.valid && s.publish_pending then key_of s ∷ pending_keys rest else pending_keys rest

-- What the loops over the peers leave: whether every send succeeded, whether there was a target, and
-- the packets.
pub record Round : Type 0 where
  pub completed : Bool
  pub had_target : Bool
  pub packets : List ChunkPacket

abbrev pub delivery_of : ℕ → SnapshotKey → List ℕ → ℕ → Delivery
delivery_of target key bytes purpose = record {
  target_steam_id = target;
  key = key;
  payload = bytes;
  purpose = purpose;
  request_nonce = 0;
  client_generation = 0;
}

module _ (transport : ChunkPacket → Bool) where
  -- `SendBhrcFullPgdSnapshot`; no attempt guards it.
  unfoldable pub send_snapshot : ℕ → SnapshotKey → ℕ → List HotSnapshot → Bool × List ChunkPacket
  send_snapshot target key purpose xs = elim (copy xs key) [
    | none ↦ (false, [])
    | some (found, bytes) ↦
        send transport (λ i. ([], 0)) (delivery_of target found bytes purpose) none
  ]

  -- The loop that relays a snapshot to the peers which pass a test.
  unfoldable pub relay_to : (ℕ → Bool) → List ℕ → SnapshotKey → List HotSnapshot → Round
  relay_to is_target [] key xs = record { completed = true; had_target = false; packets = [] }
  relay_to is_target (peer ∷ peers) key xs =
      let later : Round = relay_to is_target peers key xs in
      let out : Bool × List ChunkPacket = send_snapshot peer key authority_relay xs in
      if is_target peer
      then record {
        completed = out.0 && later.completed;
        had_target = true;
        packets = out.1 ++ later.packets;
      }
      else later

  -- The two loops of the host.
  unfoldable pub relay : ℕ → List ℕ → SnapshotKey → List HotSnapshot → Round
  relay local peers key xs =
      let others : Round =
        relay_to (λ peer. not (peer == 0) && not (peer == key.owner_steam_id)) peers key xs in
      if not others.had_target && key.owner_steam_id == local
      then (let all : Round = relay_to (λ peer. not (peer == 0)) peers key xs in
          record {
            completed = others.completed && all.completed;
            had_target = all.had_target;
            packets = others.packets ++ all.packets;
          })
      else others

  -- The branch of a player that is not the host.
  unfoldable pub publish : ℕ → ℕ → (ℕ → Bool) → SnapshotKey → List HotSnapshot → Round
  publish local owner is_peer_active key xs =
      if not (key.owner_steam_id == local) || not (is_peer_active owner)
      then record { completed = false; had_target = false; packets = [] }
      else (let out : Bool × List ChunkPacket = send_snapshot owner key owner_publish xs in
          record { completed = out.0; had_target = true; packets = out.1 })

  abbrev pub round_of : ℕ → ℕ → (ℕ → Bool) → List ℕ → SnapshotKey → List HotSnapshot → Round
  round_of local owner is_peer_active peers key xs =
      if local == owner then relay local peers key xs else publish local owner is_peer_active key xs

  -- The second loop, with the packets in their order; `clock n` is the time in round `n`.
  unfoldable pub publish_each :
      (ℕ → ℕ)
      → ℕ
      → ℕ
      → (ℕ → Bool)
      → List ℕ
      → ℕ
      → List SnapshotKey
      → List HotSnapshot
      → List ChunkPacket × List HotSnapshot
  publish_each clock local owner is_peer_active peers n [] xs = ([], xs)
  publish_each clock local owner is_peer_active peers n (key ∷ keys) xs =
      let r : Round = round_of local owner is_peer_active peers key xs in
      let next : List HotSnapshot =
        if r.completed && (r.had_target || local == owner)
        then mark_published (clock n) key xs
        else xs in
      let later : List ChunkPacket × List HotSnapshot =
        publish_each clock local owner is_peer_active peers (n + 1) keys next in
      (r.packets ++ later.0, later.1)

  -- `AdvanceBhrcFullPgdSnapshotPublication`.
  unfoldable pub advance_publication :
      (ℕ → ℕ) → ℕ → ℕ → (ℕ → Bool) → List ℕ → List HotSnapshot → List ChunkPacket × List HotSnapshot
  advance_publication clock local owner is_peer_active peers xs =
      if local == 0 || owner == 0
      then ([], xs)
      else publish_each clock local owner is_peer_active peers 0 (pending_keys xs) xs
