-- ===== src/Restore.antt =====
-- The restores that a host pins for a returning player, in src/reconnect_fix.cpp: the snapshot of the
-- player's data is copied once for an admitted attempt, and every delivery of the attempt sends that
-- copy. The types are in src/core.hpp.
pub mod Table
pub mod Deliver
pub mod Clear
pub mod Pin
pub mod Again
pub mod Sent
mod Tests
use revenant_fix.Prelude.{ℕ, Bool, false, Option, none, List}
use revenant_fix.Pgd.{SnapshotKey, HotSnapshot, empty_key}
use revenant_fix.Admission.{Attempt}

-- `BhrcFullPgdPinnedRestore`; its payload is `none` for the null pointer.
pub record Pinned : Type 0 where
  pub valid : Bool
  pub reservation_serial : ℕ
  pub steam_id : ℕ
  pub request_nonce : ℕ
  pub client_generation : ℕ
  pub key : SnapshotKey
  pub payload : Option (List ℕ)

abbrev pub empty_pinned : Pinned
empty_pinned = record {
  valid = false;
  reservation_serial = 0;
  steam_id = 0;
  request_nonce = 0;
  client_generation = 0;
  key = empty_key;
  payload = none;
}

-- What the functions read and write: `g_bhrc_host_admission_attempts`,
-- `g_bhrc_full_pgd_pinned_restores`, and the hot snapshots.
pub record State : Type 0 where
  pub attempts : List Attempt
  pub pinned : List Pinned
  pub snapshots : List HotSnapshot
