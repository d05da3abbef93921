-- ===== src/Admission.antt =====
-- Host admissions of src/reconnect_fix.cpp: their types, which are in src/core.hpp. A request of a
-- returning player reserves an attempt; the reservation is committed once the response was sent, and
-- rolled back where the send failed.
pub mod Table
pub mod Choose
pub mod Reserve
pub mod Rollback
pub mod Commit
pub mod Events
pub mod Inbound
pub mod Retry
mod Tests
mod EventTests
use revenant_fix.Prelude.{ℕ, Bool, true, false, List, []}

-- `BhrcExpeditionMembership`.
pub data Membership : Type 0 where
  unknown returning_same_b ordinary_lobby reject : Membership

-- `BhrcExpeditionProbeTrigger`, the number that the packet holds: the cast accepts any.
abbrev pub trigger_startup_previous_session : ℕ
trigger_startup_previous_session = 1

-- `BhrcHostAdmissionAttempt`.
pub record Attempt : Type 0 where
  pub valid : Bool
  pub reservation_serial : ℕ
  pub admitted_tick_ms : ℕ
  pub expires_tick_ms : ℕ
  pub steam_id : ℕ
  pub record_key : ℕ
  pub master_lobby_id : ℕ
  pub expedition_lobby_id : ℕ
  pub authority_commit_seq : ℕ
  pub manager_id : ℕ
  pub request_nonce : ℕ
  pub client_generation : ℕ
  pub identity_hash32 : ℕ
  pub sent_event_mask : ℕ
  pub consumed_event_mask : ℕ
  pub last_full_pgd_send_tick_ms : ℕ
  pub full_pgd_codec_version : ℕ
  pub full_pgd_snapshot_revision : ℕ
  pub full_pgd_payload_size : ℕ
  pub full_pgd_snapshot_hash32 : ℕ
  pub full_pgd_restore_sent : Bool
  pub trigger : ℕ
  pub membership : Membership

-- `BhrcHostAdmissionReservation`, a valid one.
pub record Reservation : Type 0 where
  pub replaced : Bool
  pub slot_index : ℕ
  pub previous : Attempt
  pub admitted : Attempt

-- `BhrcInboundNativeEventSlot`.
pub record InboundSlot : Type 0 where
  pub valid : Bool
  pub consumed : Bool
  pub reservation_id : ℕ
  pub received_tick_ms : ℕ
  pub sender_steam_id : ℕ
  pub target_steam_id : ℕ
  pub source_record_key : ℕ
  pub master_lobby_id : ℕ
  pub expedition_lobby_id : ℕ
  pub authority_commit_seq : ℕ
  pub request_nonce : ℕ
  pub client_generation : ℕ
  pub event_id : ℕ
  pub payload_size : ℕ
  pub payload_hash32 : ℕ
  pub payload : List ℕ

-- What the functions read of `BhrcNativeExpeditionAuthorityState` and of
-- `BhrcExpeditionHostPhaseSnapshot`.
pub record Phase : Type 0 where
  pub authority_live : Bool
  pub commit_seq : ℕ
  pub lobby_id : ℕ
  pub master_lobby_id : ℕ
  pub manager_id : ℕ

-- What they read of `RevenantFixExpeditionProbeRequestPacket`.
pub record Packet : Type 0 where
  pub request_nonce : ℕ
  pub trigger : ℕ
  pub record_key : ℕ
  pub client_generation : ℕ
  pub identity_hash32 : ℕ

abbrev pub empty_attempt : Attempt
empty_attempt = record {
  valid = false;
  reservation_serial = 0;
  admitted_tick_ms = 0;
  expires_tick_ms = 0;
  steam_id = 0;
  record_key = 0;
  master_lobby_id = 0;
  expedition_lobby_id = 0;
  authority_commit_seq = 0;
  manager_id = 0;
  request_nonce = 0;
  client_generation = 0;
  identity_hash32 = 0;
  sent_event_mask = 0;
  consumed_event_mask = 0;
  last_full_pgd_send_tick_ms = 0;
  full_pgd_codec_version = 0;
  full_pgd_snapshot_revision = 0;
  full_pgd_payload_size = 0;
  full_pgd_snapshot_hash32 = 0;
  full_pgd_restore_sent = false;
  trigger = 0;
  membership = Membership.unknown;
}

abbrev pub empty_inbound : InboundSlot
empty_inbound = record {
  valid = false;
  consumed = false;
  reservation_id = 0;
  received_tick_ms = 0;
  sender_steam_id = 0;
  target_steam_id = 0;
  source_record_key = 0;
  master_lobby_id = 0;
  expedition_lobby_id = 0;
  authority_commit_seq = 0;
  request_nonce = 0;
  client_generation = 0;
  event_id = 0;
  payload_size = 0;
  payload_hash32 = 0;
  payload = [];
}
