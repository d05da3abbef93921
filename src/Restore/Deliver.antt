-- ===== src/Restore/Deliver.antt =====
-- The deliveries of src/reconnect_fix.cpp: `SendBhrcFullPgdRestoreToAttempt`, and
-- `AdvanceBhrcFullPgdHostRestoreDeliveries`, which retries them.
use revenant_fix.Prelude.{
  ℕ, ◌+◌, ◌-◌, ◌%◌, ◌^◌, Bool, true, false, ◌&&◌, ◌||◌, not, none, some, List, [], ◌∷◌, ◌++◌, ltb,
  leb, ◌==◌, has_bit, if◌then◌else◌, find_index, get_or, set,
}
use revenant_fix.Pgd.{SnapshotKey}
use revenant_fix.Admission.{Attempt, empty_attempt}
use revenant_fix.Transfer.{ChunkPacket, restore_delivery}
use revenant_fix.Transfer.Send.{Delivery, send, is_same_attempt_identity}
use revenant_fix.Restore.{State}
use revenant_fix.Restore.Table.{is_returning, is_snapshot_of, named, PinClock, pin, copy_pinned}

-- What one delivery reads of the clock; `seen i` is the time in round `i` of the sending loop.
pub record DeliverClock : Type 0 where
  pub start : ℕ
  pub pins : PinClock
  pub seen : ℕ → ℕ
  pub sent : ℕ

-- The checks of the argument.
unfoldable pub is_deliverable : ℕ → Attempt → Bool
is_deliverable now a =
    a.valid
    && (is_returning a.membership
        && (not (a.steam_id == 0) && (not (a.request_nonce == 0) && ltb now a.expires_tick_ms)))

-- The loop that notes a delivery in its attempt.
unfoldable pub note_sent : ℕ → Attempt → SnapshotKey → State → State
note_sent now a key s =
    elim (find_index (λ current. is_same_attempt_identity current a && is_snapshot_of current key)
      s.attempts) [
        | none ↦ s
        | some j ↦ record s {
          attempts = set s.attempts j (record (get_or s.attempts j empty_attempt) {
            last_full_pgd_send_tick_ms = now;
            full_pgd_restore_sent = true;
          });
        }
      ]

-- What is handed to `SendBhrcFullPgdPayload`.
abbrev pub delivery_of : Attempt → SnapshotKey → List ℕ → Delivery
delivery_of a key bytes = record {
  target_steam_id = a.steam_id;
  key = key;
  payload = bytes;
  purpose = restore_delivery;
  request_nonce = a.request_nonce;
  client_generation = a.client_generation;
}

pub record Sent : Type 0 where
  pub ok : Bool
  pub packets : List ChunkPacket
  pub state : State

-- `kBhrcFullPgdRestoreRetryMs`.
abbrev pub restore_retry_ms : ℕ
restore_retry_ms = 2000

-- The test of the first loop. The bit is `kBhrcNativeEventMask0c`.
unfoldable pub is_due : ℕ → Attempt → Bool
is_due now a =
    a.valid
    && (is_returning a.membership
        && (ltb now a.expires_tick_ms
            && (not (has_bit a.consumed_event_mask 2)
                && (a.last_full_pgd_send_tick_ms == 0
                    || leb restore_retry_ms
                        ((now + (2 ^ 64 - a.last_full_pgd_send_tick_ms)) % 2 ^ 64)))))

unfoldable pub due_of : ℕ → List Attempt → List Attempt
due_of now [] = []
due_of now (a ∷ rest) = if is_due now a then a ∷ due_of now rest else due_of now rest

module _ (transport : ChunkPacket → Bool) where
  -- From where the restore is pinned under `key`.
  unfoldable pub send_pinned : DeliverClock → Attempt → SnapshotKey → State → Sent
  send_pinned c a key s = elim (copy_pinned (named key a) s.pinned) [
    | none ↦ record { ok = false; packets = []; state = s }
    | some (copied, bytes) ↦
        let out : Bool × List ChunkPacket =
          send transport (λ i. (s.attempts, c.seen i)) (delivery_of a copied bytes)
            (some (named key a)) in
        record {
          ok = out.0;
          packets = out.1;
          state = if out.0 then note_sent c.sent a copied s else s;
        }
  ]

  -- `SendBhrcFullPgdRestoreToAttempt`.
  unfoldable pub send_restore : DeliverClock → Attempt → State → Sent
  send_restore c a s =
      if not (is_deliverable c.start a)
      then record { ok = false; packets = []; state = s }
      else elim (pin c.pins a s).0 [
        | none ↦ record { ok = false; packets = []; state = (pin c.pins a s).1 }
        | some key ↦ send_pinned c a key (pin c.pins a s).1
      ]

  -- The second loop, with the packets in their order; `clocks n` is the clock of round `n`.
  unfoldable pub deliver_each :
      (ℕ → DeliverClock) → ℕ → List Attempt → State → List ChunkPacket × State
  deliver_each clocks n [] s = ([], s)
  deliver_each clocks n (a ∷ rest) s =
      let one : Sent = send_restore (clocks n) a s in
      let others : List ChunkPacket × State = deliver_each clocks (n + 1) rest one.state in
      (one.packets ++ others.0, others.1)

  -- `AdvanceBhrcFullPgdHostRestoreDeliveries`. The list of due attempts has room for all of them.
  unfoldable pub deliver_due : Bool → ℕ → (ℕ → DeliverClock) → State → List ChunkPacket × State
  deliver_due is_local_host now clocks s =
      if not is_local_host then ([], s) else deliver_each clocks 0 (due_of now s.attempts) s
