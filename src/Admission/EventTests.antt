-- ===== src/Admission/EventTests.antt =====
-- Runs of the native events of an admission, and instances of their theorems.
use revenant_fix.Prelude.{
  ℕ, ◌+◌, ◌%◌, ◌^◌, ◌≡◌, ◌≢◌, ◌<◌, refl, true, false, some, List, [], ◌∷◌, get_or, arith, count,
  find_index, find_elem,
}
use revenant_fix.Admission.{Attempt, empty_attempt, empty_inbound}
use revenant_fix.Admission.Table.{Host, lifetime, is_of}
use revenant_fix.Admission.Events.{
  EventPacket, is_attempt, snapshot_attempt, mark_event, is_same_event, is_duplicate, is_open,
  slot_of, store_event, clear_attempts, is_with, clear_slots, clear_peer,
}
use revenant_fix.Admission.Inbound.{store_event_lem, clear_peer_lem, snapshot-mark_event}
use revenant_fix.Admission.Retry.{Arrival, store_all, store_event-store_all}

program : Unit {0}
unfolding lifetime is_attempt snapshot_attempt mark_event is_same_event is_duplicate store_event
    clear_attempts clear_slots clear_peer find_index find_elem count
program = tt

abbrev packet : EventPacket
packet = record {
  target_steam_id = 12;
  record_key = 11;
  master_lobby_id = 40;
  expedition_lobby_id = 30;
  authority_commit_seq = 2;
  request_nonce = 77;
  client_generation = 3;
  event_id = 29;
  payload_size = 2;
  payload_hash32 = 5;
  payload = 1 ∷ 2 ∷ [];
}

abbrev host : Host
host = record {
  attempts =
      record empty_attempt {
        valid = true;
        steam_id = 11;
        request_nonce = 77;
        expires_tick_ms = 900;
        trigger = 2;
      }
      ∷ empty_attempt
      ∷ [];
  reservation_counter = 1;
  inbound =
      record empty_inbound { valid = true; sender_steam_id = 13; event_id = 29 }
      ∷ empty_inbound
      ∷ [];
}

abbrev attempt : Attempt
attempt = get_or host.attempts 0 empty_attempt

run_store :
    (store_event 11 100 packet host.inbound).slots
    ≡ get_or host.inbound 0 empty_inbound ∷ slot_of 11 100 packet ∷ []
unfolding program
run_store = refl

-- A packet of another player.
abbrev others : List Arrival
others = record { sender = 15; at = 150; packet = record packet { event_id = 30 } } ∷ []

store_event-store_all_example :
    ((store_event 11 100 packet host.inbound).ok ≡ true
      → store_event 11 200 packet (store_event 11 100 packet host.inbound).slots ≡ record {
        ok = true;
        stored = false;
        slots = (store_event 11 100 packet host.inbound).slots;
      })
    × ((store_event 11 100 packet host.inbound).stored ≡ true
        → store_event 11 200 packet
            (store_all others (store_event 11 100 packet host.inbound).slots)
          ≡ record {
            ok = true;
            stored = false;
            slots = store_all others (store_event 11 100 packet host.inbound).slots;
          })
store_event-store_all_example = store_event-store_all 11 100 200 packet others host.inbound

store_event_lem_example :
    ((i : ℕ)
      → is_open (get_or host.inbound i empty_inbound) ≡ false
      → get_or (store_event 11 100 packet host.inbound).slots i empty_inbound
        ≡ get_or host.inbound i empty_inbound)
    × ((store_event 11 100 packet host.inbound).ok ≡ true
        → (i : ℕ) × (i < 2)
          × (is_same_event 11 packet
                (get_or (store_event 11 100 packet host.inbound).slots i empty_inbound)
              ≡ true)
          × (is_duplicate packet
                (get_or (store_event 11 100 packet host.inbound).slots i empty_inbound)
              ≡ true))
    × ((store_event 11 100 packet host.inbound).stored ≡ true
        → (i : ℕ) × (i < 2)
          × (get_or (store_event 11 100 packet host.inbound).slots i empty_inbound
              ≡ slot_of 11 100 packet))
store_event_lem_example = store_event_lem 11 100 packet host.inbound

clear_peer_lem_example :
    (count (is_of 11) (clear_peer 11 host).attempts ≡ 0)
    × (count (is_with 11) (clear_peer 11 host).inbound ≡ 0)
    × ((q : ℕ)
        → q ≢ 11
        → find_elem (is_of q) (clear_peer 11 host).attempts ≡ find_elem (is_of q) host.attempts)
    × ((i : ℕ)
        → is_with 11 (get_or host.inbound i empty_inbound) ≡ false
        → get_or (clear_peer 11 host).inbound i empty_inbound ≡ get_or host.inbound i empty_inbound)
clear_peer_lem_example = clear_peer_lem 11 host (λ e. omega arith)

snapshot-mark_event_example :
    snapshot_attempt 11 77 90000 (mark_event 11 77 4 false 800 host.attempts)
    ≡ some
        (record attempt { consumed_event_mask = 4; expires_tick_ms = (800 + lifetime 2) % 2 ^ 64 })
unfolding program
snapshot-mark_event_example =
    snapshot-mark_event 11 77 4 800 90000 false host.attempts attempt 500 (omega arith)
      (λ e. omega arith) refl (omega arith)
