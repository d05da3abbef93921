-- ===== src/Pgd.antt =====
-- Player game data of src/reconnect_fix.cpp: its fingerprint, the shape of a transfer, and the types
-- of the snapshots, which are in src/core.hpp. Payload and payload size are one list of bytes.
pub mod Store
pub mod Fresh
pub mod Written
pub mod Shape
pub mod Read
pub mod Copied
pub mod Revision
pub mod Generation
mod Tests
use Prim.Native.Nat.{bit_xor}
use revenant_fix.Prelude.{
  ℕ, ◌+◌, ◌-◌, ◌*◌, ◌/◌, ◌%◌, ◌^◌, Bool, true, false, ◌&&◌, ◌||◌, not, List, [], ◌∷◌, ltb, leb,
  ◌==◌, if◌then◌else◌, length,
}

abbrev pub min_payload_size : ℕ
min_payload_size = 0x1b0

abbrev pub max_payload_size : ℕ
max_payload_size = 0x10_0000

abbrev pub chunk_payload_size : ℕ
chunk_payload_size = 0x7_f000

abbrev pub max_chunks : ℕ
max_chunks = (max_payload_size + chunk_payload_size - 1) / chunk_payload_size

unfoldable pub fnv1a32_from : ℕ → List ℕ → ℕ
fnv1a32_from hash [] = hash
fnv1a32_from hash (b ∷ bs) = fnv1a32_from (bit_xor hash b * 16777619 % 2 ^ 32) bs

-- `BhrcFnv1a32`.
unfoldable pub fnv1a32 : List ℕ → ℕ
unfolding fnv1a32_from
fnv1a32 bytes = fnv1a32_from 2166136261 bytes

-- The number of chunks of a payload, computed in `uint32_t`.
abbrev pub chunks_of : ℕ → ℕ
chunks_of size = (size + chunk_payload_size - 1) % 2 ^ 32 / chunk_payload_size

-- `IsBhrcFullPgdPayloadShapeValid`.
unfoldable pub is_shape_valid : ℕ → ℕ → Bool
is_shape_valid size chunk_count =
    if ltb size min_payload_size || ltb max_payload_size size
    then false
    else not (chunks_of size == 0)
      && (leb (chunks_of size) max_chunks && chunk_count == chunks_of size)

-- `std::memcmp(a, b, n) == 0` for payloads of one size.
abbrev pub bytes_eq : List ℕ → List ℕ → Bool
bytes_eq [] [] = true
bytes_eq [] (y ∷ ys) = false
bytes_eq (x ∷ xs) [] = false
bytes_eq (x ∷ xs) (y ∷ ys) = x == y && bytes_eq xs ys

-- `BhrcFullPgdSnapshotKey`.
pub record SnapshotKey : Type 0 where
  pub owner_steam_id : ℕ
  pub master_lobby_id : ℕ
  pub expedition_lobby_id : ℕ
  pub authority_commit_seq : ℕ
  pub codec_version : ℕ
  pub snapshot_revision : ℕ
  pub payload_size : ℕ
  pub payload_hash32 : ℕ

-- `BhrcFullPgdHotSnapshot`.
pub record HotSnapshot : Type 0 where
  pub valid : Bool
  pub publish_pending : Bool
  pub updated_tick_ms : ℕ
  pub last_publish_tick_ms : ℕ
  pub owner_steam_id : ℕ
  pub master_lobby_id : ℕ
  pub expedition_lobby_id : ℕ
  pub authority_commit_seq : ℕ
  pub codec_version : ℕ
  pub snapshot_revision : ℕ
  pub payload_size : ℕ
  pub payload_hash32 : ℕ
  pub payload : List ℕ

abbrev pub empty_key : SnapshotKey
empty_key = record {
  owner_steam_id = 0;
  master_lobby_id = 0;
  expedition_lobby_id = 0;
  authority_commit_seq = 0;
  codec_version = 0;
  snapshot_revision = 0;
  payload_size = 0;
  payload_hash32 = 0;
}

-- `std::memset(&candidate, 0, sizeof(candidate))`.
abbrev pub empty_snapshot : HotSnapshot
empty_snapshot = record {
  valid = false;
  publish_pending = false;
  updated_tick_ms = 0;
  last_publish_tick_ms = 0;
  owner_steam_id = 0;
  master_lobby_id = 0;
  expedition_lobby_id = 0;
  authority_commit_seq = 0;
  codec_version = 0;
  snapshot_revision = 0;
  payload_size = 0;
  payload_hash32 = 0;
  payload = [];
}

abbrev pub key_of : HotSnapshot → SnapshotKey
key_of s = record {
  owner_steam_id = s.owner_steam_id;
  master_lobby_id = s.master_lobby_id;
  expedition_lobby_id = s.expedition_lobby_id;
  authority_commit_seq = s.authority_commit_seq;
  codec_version = s.codec_version;
  snapshot_revision = s.snapshot_revision;
  payload_size = s.payload_size;
  payload_hash32 = s.payload_hash32;
}
