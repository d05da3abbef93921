-- ===== src/Transfer.antt =====
-- The transfer of player game data of src/reconnect_fix.cpp, in chunks: the packets, the places where
-- they are assembled, and the receipt of the authority. The types are in src/core.hpp.
pub mod Send
pub mod Check
pub mod Receive
pub mod Mask
pub mod Match
pub mod Holds
pub mod Table
pub mod Assemble
pub mod Step
pub mod Complete
pub mod Handle
mod Tests
use revenant_fix.Prelude.{ℕ, Bool, false, List}

abbrev pub owner_publish : ℕ
owner_publish = 1

abbrev pub authority_relay : ℕ
authority_relay = 2

abbrev pub restore_delivery : ℕ
restore_delivery = 3

-- `RevenantFixFullPgdChunkPacket`, with the target and the lobby of its header, and with the first
-- `chunk_size` bytes of its payload, which are all that is sent.
pub record ChunkPacket : Type 0 where
  pub target_steam_id : ℕ
  pub lobby_id : ℕ
  pub owner_steam_id : ℕ
  pub master_lobby_id : ℕ
  pub expedition_lobby_id : ℕ
  pub authority_commit_seq : ℕ
  pub request_nonce : ℕ
  pub client_generation : ℕ
  pub codec_version : ℕ
  pub snapshot_revision : ℕ
  pub total_size : ℕ
  pub total_hash32 : ℕ
  pub chunk_index : ℕ
  pub chunk_count : ℕ
  pub chunk_size : ℕ
  pub chunk_hash32 : ℕ
  pub purpose : ℕ
  pub payload : List ℕ

-- `BhrcFullPgdInboundAssembly`, its buffer as the function from an offset to a byte.
pub record Assembly : Type 0 where
  pub valid : Bool
  pub received_tick_ms : ℕ
  pub sender_steam_id : ℕ
  pub target_steam_id : ℕ
  pub owner_steam_id : ℕ
  pub master_lobby_id : ℕ
  pub expedition_lobby_id : ℕ
  pub authority_commit_seq : ℕ
  pub request_nonce : ℕ
  pub client_generation : ℕ
  pub codec_version : ℕ
  pub snapshot_revision : ℕ
  pub total_size : ℕ
  pub total_hash32 : ℕ
  pub chunk_count : ℕ
  pub purpose : ℕ
  pub received_chunk_mask : ℕ
  pub payload : ℕ → ℕ

-- `g_bhrc_full_pgd_authority_receipt`.
pub record Receipt : Type 0 where
  pub valid : Bool
  pub master_lobby_id : ℕ
  pub expedition_lobby_id : ℕ
  pub owner_steam_id : ℕ
  pub authority_commit_seq : ℕ

-- What is read of `BhrcNativeExpeditionAuthorityState`.
pub record Authority : Type 0 where
  pub valid : Bool
  pub master_lobby_id : ℕ
  pub lobby_id : ℕ
  pub owner_steam_id : ℕ
  pub commit_seq : ℕ

-- What is read of the probe of the local client; `authorized` is what `IsBhrcAuthorizedClientProbe`
-- says of it, and `restore_window_closed` what `BhrcFullPgdRestoreWindowClosed` says.
pub record Probe : Type 0 where
  pub authorized : Bool
  pub restore_window_closed : Bool
  pub host_steam_id : ℕ
  pub master_lobby_id : ℕ
  pub expedition_lobby_id : ℕ
  pub authority_commit_seq : ℕ
  pub request_nonce : ℕ
  pub client_generation : ℕ

abbrev pub empty_assembly : Assembly
empty_assembly = record {
  valid = false;
  received_tick_ms = 0;
  sender_steam_id = 0;
  target_steam_id = 0;
  owner_steam_id = 0;
  master_lobby_id = 0;
  expedition_lobby_id = 0;
  authority_commit_seq = 0;
  request_nonce = 0;
  client_generation = 0;
  codec_version = 0;
  snapshot_revision = 0;
  total_size = 0;
  total_hash32 = 0;
  chunk_count = 0;
  purpose = 0;
  received_chunk_mask = 0;
  payload = λ j. 0;
}
