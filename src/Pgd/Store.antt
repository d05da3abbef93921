-- ===== src/Pgd/Store.antt =====
-- The six hot snapshots: `StoreBhrcFullPgdHotSnapshot` and the readers of the table.
use revenant_fix.Prelude.{
  ℕ, ◌+◌, ◌%◌, ◌^◌, Bool, true, false, ◌&&◌, ◌||◌, not, Option, none, some, List, [], ◌∷◌, ltb, leb,
  ◌==◌, if◌then◌else◌, length, get_or, set, find_index,
}
use revenant_fix.Pgd.{
  HotSnapshot, SnapshotKey, empty_key, empty_snapshot, key_of, fnv1a32, is_shape_valid, chunks_of,
  bytes_eq, min_payload_size, max_payload_size,
}

-- The arguments of a store. `now` is what `GetTickCount64` returns.
pub record Request : Type 0 where
  pub owner_steam_id : ℕ
  pub master_lobby_id : ℕ
  pub expedition_lobby_id : ℕ
  pub authority_commit_seq : ℕ
  pub codec_version : ℕ
  pub requested_revision : ℕ
  pub payload : List ℕ
  pub payload_hash32 : ℕ
  pub publish_pending : Bool
  pub authoritative_replace : Bool
  pub now : ℕ

-- One player in one expedition, whatever the authority.
abbrev pub is_same_expedition : ℕ → ℕ → ℕ → HotSnapshot → Bool
is_same_expedition owner master expedition s =
    s.valid
    && (s.owner_steam_id == owner
        && (s.master_lobby_id == master && s.expedition_lobby_id == expedition))

-- The test of `FindBhrcFullPgdHotSnapshotLocked`.
abbrev pub is_exact : ℕ → ℕ → ℕ → ℕ → HotSnapshot → Bool
is_exact owner master expedition seq s =
    is_same_expedition owner master expedition s && s.authority_commit_seq == seq

-- `FindBhrcFullPgdHotSnapshotLocked`, as an index.
unfoldable pub find_snapshot : List HotSnapshot → ℕ → ℕ → ℕ → ℕ → Option ℕ
find_snapshot xs owner master expedition seq = find_index (is_exact owner master expedition seq) xs

-- The checks at the head of the function.
unfoldable pub is_acceptable : Request → Bool
is_acceptable r =
    not (r.owner_steam_id == 0)
    && (not (r.master_lobby_id == 0)
        && (not (r.expedition_lobby_id == 0)
            && (not (r.authority_commit_seq == 0)
                && (not (r.codec_version == 0)
                    && (not (r.payload_hash32 == 0)
                        && (is_shape_valid (length r.payload)
                              (chunks_of (length r.payload) % 2 ^ 16)
                            && fnv1a32 r.payload == r.payload_hash32))))))

-- The loop that clears the snapshots of the same expedition under another authority.
unfoldable pub drop_stale : Request → List HotSnapshot → List HotSnapshot
drop_stale r [] = []
drop_stale r (s ∷ ss) =
    (if is_same_expedition r.owner_steam_id r.master_lobby_id r.expedition_lobby_id s
        && not (s.authority_commit_seq == r.authority_commit_seq)
      then empty_snapshot
      else s)
    ∷ drop_stale r ss

-- The loop for the oldest entry: `best` is the index of the target so far, and `tick` its time.
unfoldable pub oldest_from : List HotSnapshot → ℕ → ℕ → ℕ → ℕ
oldest_from [] index best tick = best
oldest_from (s ∷ ss) index best tick =
    let newer : Bool = ltb s.updated_tick_ms tick in
    oldest_from ss (index + 1) (if newer then index else best)
      (if newer then s.updated_tick_ms else tick)

abbrev pub is_free : HotSnapshot → Bool
is_free s = not s.valid

-- Where the snapshot goes: its own place, a free one, or that of the oldest.
unfoldable pub choose_target : Request → List HotSnapshot → ℕ
unfolding find_snapshot
choose_target r xs =
    elim (find_snapshot xs r.owner_steam_id r.master_lobby_id r.expedition_lobby_id
      r.authority_commit_seq) [
        | some i ↦ i
        | none ↦ elim (find_index is_free xs) [
          | some i ↦ i
          | none ↦ oldest_from xs 0 0 (get_or xs 0 empty_snapshot).updated_tick_ms
        ]
      ]

abbrev pub is_target : Request → HotSnapshot → Bool
is_target r t =
    is_exact r.owner_steam_id r.master_lobby_id r.expedition_lobby_id r.authority_commit_seq t

-- Codec, size, hash and bytes agree.
unfoldable pub is_same_data : Request → HotSnapshot → Bool
is_same_data r t =
    t.codec_version == r.codec_version
    && (t.payload_size == length r.payload
        && (t.payload_hash32 == r.payload_hash32 && bytes_eq t.payload r.payload))

-- Why a store is refused: an older revision, or the same one with other data.
unfoldable pub is_rejected : Request → HotSnapshot → Bool
is_rejected r t =
    not r.authoritative_replace
    && (is_target r t
        && (not (r.requested_revision == 0)
            && (ltb r.requested_revision t.snapshot_revision
                || (r.requested_revision == t.snapshot_revision && not (is_same_data r t)))))

-- Whether the target is written again.
unfoldable pub is_written : Request → HotSnapshot → Bool
is_written r t =
    r.authoritative_replace
    || (not (is_target r t && is_same_data r t)
        || (not (r.requested_revision == 0)
            && (is_target r t && ltb t.snapshot_revision r.requested_revision)))

-- The revision of a written snapshot, a `uint64_t`; 0 asks for the next one, and is never stored.
unfoldable pub next_revision : Request → HotSnapshot → ℕ
next_revision r t =
    if not (r.requested_revision == 0)
    then r.requested_revision
    else if is_target r t
    then (let next : ℕ = (t.snapshot_revision + 1) % 2 ^ 64 in if next == 0 then 1 else next)
    else 1

-- The snapshot that is written.
unfoldable pub fresh : Request → HotSnapshot → HotSnapshot
fresh r t = record {
  valid = true;
  publish_pending = r.publish_pending;
  updated_tick_ms = r.now;
  last_publish_tick_ms = 0;
  owner_steam_id = r.owner_steam_id;
  master_lobby_id = r.master_lobby_id;
  expedition_lobby_id = r.expedition_lobby_id;
  authority_commit_seq = r.authority_commit_seq;
  codec_version = r.codec_version;
  snapshot_revision = next_revision r t;
  payload_size = length r.payload;
  payload_hash32 = r.payload_hash32;
  payload = r.payload;
}

-- The result, `*out_key` and the table.
pub record Stored : Type 0 where
  pub ok : Bool
  pub key : SnapshotKey
  pub table : List HotSnapshot

-- The locked part, with the target's index.
unfoldable pub store_at : Request → List HotSnapshot → ℕ → Stored
store_at r xs i =
    let t : HotSnapshot = get_or xs i empty_snapshot in
    if is_rejected r t
    then record { ok = false; key = empty_key; table = xs }
    else (let after : HotSnapshot = if is_written r t then fresh r t else t in
        let stored : SnapshotKey = if after.valid then key_of after else empty_key in
        record {
          ok = not (stored.owner_steam_id == 0);
          key = stored;
          table = if is_written r t then set xs i after else xs;
        })

-- `StoreBhrcFullPgdHotSnapshot`.
unfoldable pub store : Request → List HotSnapshot → Stored
store r xs =
    if not (is_acceptable r)
    then record { ok = false; key = empty_key; table = xs }
    else (let kept : List HotSnapshot = drop_stale r xs in store_at r kept (choose_target r kept))

-- `HasExactBhrcFullPgdHotSnapshot`, with the fields of a valid authority.
unfoldable pub has_exact : List HotSnapshot → ℕ → ℕ → ℕ → ℕ → Bool
has_exact xs owner master expedition seq =
    if owner == 0 || (master == 0 || (expedition == 0 || seq == 0))
    then false
    else elim (find_snapshot xs owner master expedition seq) [
      | none ↦ false
      | some i ↦
          let s : HotSnapshot = get_or xs i empty_snapshot in
          not (s.codec_version == 0)
          && (not (s.payload_hash32 == 0) && leb min_payload_size s.payload_size)
    ]

-- A field of a requested key that is 0 matches everything.
abbrev pub matches : ℕ → ℕ → Bool
matches asked actual = asked == 0 || asked == actual

-- `CopyBhrcFullPgdHotSnapshot`, where the memory for the copy is there.
unfoldable pub copy : List HotSnapshot → SnapshotKey → Option (SnapshotKey × List ℕ)
copy xs k =
    if k.owner_steam_id == 0
    then none
    else elim (find_snapshot xs k.owner_steam_id k.master_lobby_id k.expedition_lobby_id
        k.authority_commit_seq) [
          | none ↦ none
          | some i ↦
              let s : HotSnapshot = get_or xs i empty_snapshot in
              if matches k.codec_version s.codec_version
                && (matches k.snapshot_revision s.snapshot_revision
                    && (matches k.payload_size s.payload_size
                        && (matches k.payload_hash32 s.payload_hash32
                            && (leb min_payload_size s.payload_size
                                && leb s.payload_size max_payload_size))))
              then some (key_of s, s.payload)
              else none
        ]
