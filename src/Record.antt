-- ===== src/Record.antt =====
-- The cache of reconnect records of src/reconnect_fix.cpp, with its types in src/core.hpp.
pub mod Cache
pub mod Count
pub mod Inv
pub mod Move
pub mod Allocate
pub mod Transport
pub mod Reconcile
pub mod Prefer
pub mod Preferred
mod Tests
use revenant_fix.Prelude.{ℕ, Bool, true, false, ℤ, pos, negsuc}

-- `BhrcIdentityMembershipState`.
pub data MembershipState : Type 0 where
  unknown native_live inactive : MembershipState

-- `BhrcPlayerIdentitySnapshot`, less its padding.
pub record PlayerIdentity : Type 0 where
  pub schema_version : ℕ
  pub valid_mask : ℕ
  pub evidence_mask : ℕ
  pub snapshot_revision : ℕ
  pub expedition_generation : ℕ
  pub record_role : ℕ
  pub membership_state : MembershipState
  pub master_lobby_id : ℕ
  pub expedition_lobby_id : ℕ
  pub owner_steam_id : ℕ
  pub steam_id : ℕ
  pub record_key : ℕ
  pub player_index : ℤ
  pub record_d4_id : ℤ
  pub player_game_data_id : ℤ
  pub party_member_slot : ℤ
  pub party_member_handle : ℕ
  pub party_member_hash32 : ℕ
  pub identity_hash32 : ℕ
  pub status_payload_hash32 : ℕ
  pub status_payload_size : ℕ
  pub observed_ms : ℕ

-- `BhrcSteamRecordCacheEntry`.
pub record Entry : Type 0 where
  pub valid : Bool
  pub is_inactive : Bool
  pub steam_id : ℕ
  pub lobby_id : ℕ
  pub record_key : ℕ
  pub player_index : ℤ
  pub game_data_id : ℤ
  pub party_slot : ℤ
  pub record_hash32 : ℕ
  pub event_record_hash32 : ℕ
  pub native_record_hash32 : ℕ
  pub status_payload_hash32 : ℕ
  pub generation : ℕ
  pub last_seen_ms : ℕ
  pub inactive_since_ms : ℕ
  pub status_payload_metadata_valid : Bool
  pub identity : PlayerIdentity

abbrev pub minus_one : ℤ
minus_one = negsuc 0

abbrev pub record_role_unknown : ℕ
record_role_unknown = 0

abbrev pub record_role_self : ℕ
record_role_self = 1

abbrev pub record_role_remote : ℕ
record_role_remote = 2

abbrev pub empty_identity : PlayerIdentity
empty_identity = record {
  schema_version = 3;
  valid_mask = 0;
  evidence_mask = 0;
  snapshot_revision = 0;
  expedition_generation = 0;
  record_role = record_role_unknown;
  membership_state = unknown;
  master_lobby_id = 0;
  expedition_lobby_id = 0;
  owner_steam_id = 0;
  steam_id = 0;
  record_key = 0;
  player_index = minus_one;
  record_d4_id = minus_one;
  player_game_data_id = minus_one;
  party_member_slot = minus_one;
  party_member_handle = 0;
  party_member_hash32 = 0;
  identity_hash32 = 0;
  status_payload_hash32 = 0;
  status_payload_size = 0;
  observed_ms = 0;
}

-- `BhrcSteamRecordCacheEntry{}`.
abbrev pub empty_entry : Entry
empty_entry = record {
  valid = false;
  is_inactive = false;
  steam_id = 0;
  lobby_id = 0;
  record_key = 0;
  player_index = minus_one;
  game_data_id = minus_one;
  party_slot = minus_one;
  record_hash32 = 0;
  event_record_hash32 = 0;
  native_record_hash32 = 0;
  status_payload_hash32 = 0;
  generation = 0;
  last_seen_ms = 0;
  inactive_since_ms = 0;
  status_payload_metadata_valid = false;
  identity = empty_identity;
}
