-- ===== src/Restore/Tests.antt =====
-- Runs of the pinned restores, and instances of their theorems.
use revenant_fix.Prelude.{
  ℕ, zero, suc, ◌≡◌, ◌≢◌, ◌<◌, refl, true, false, none, some, List, [], ◌∷◌, arith, find_index,
  find_elem, replicate, length, get_or, All,
}
use revenant_fix.Pgd.{HotSnapshot, empty_snapshot, fnv1a32, key_of}
use revenant_fix.Pgd.Store.{copy, find_snapshot}
use revenant_fix.Admission.{Attempt, empty_attempt, Membership}
use revenant_fix.Admission.Table.{is_same_tuple, membership_code}
use revenant_fix.Transfer.Send.{
  is_same_attempt_identity, send, send_from, may_send, is_lease, is_sendable, chunk_at,
}
use revenant_fix.Restore.{empty_pinned, State}
use revenant_fix.Restore.Table.{
  is_pinned_for, is_own, is_copied, reset_if, clear_for_serial, clear_for_peer, copy_pinned,
  is_intact, inherited, candidate, is_snapshot_of, choose_place, install, PinClock, pin_at,
  is_pinnable, pin, named,
}
use revenant_fix.Restore.Deliver.{
  DeliverClock, note_sent, is_deliverable, send_pinned, send_restore, is_due, due_of, deliver_each,
  deliver_due,
}
use revenant_fix.Restore.Clear.{copy_pinned-clear}
use revenant_fix.Restore.Again.{IsNamed, pin-pin}
use revenant_fix.Restore.Sent.{IsFor, deliver_due_lem}

program : Unit {0}
unfolding fnv1a32 copy find_snapshot is_same_tuple membership_code is_same_attempt_identity send
    send_from may_send is_lease is_sendable chunk_at is_pinned_for is_own is_copied reset_if
    clear_for_serial clear_for_peer copy_pinned is_intact inherited candidate is_snapshot_of
    choose_place install pin_at is_pinnable pin note_sent is_deliverable send_pinned send_restore
    is_due due_of deliver_each deliver_due find_index find_elem
program = tt

abbrev payload : List ℕ
payload = replicate 432 7

abbrev hot : HotSnapshot
hot = record empty_snapshot {
  valid = true;
  owner_steam_id = 11;
  master_lobby_id = 40;
  expedition_lobby_id = 30;
  authority_commit_seq = 2;
  codec_version = 1;
  snapshot_revision = 5;
  payload_size = 432;
  payload_hash32 = 0x5f1a_f9b5;
  payload = payload;
}

abbrev attempt : Attempt
attempt = record empty_attempt {
  valid = true;
  reservation_serial = 6;
  expires_tick_ms = 9000;
  steam_id = 11;
  record_key = 11;
  master_lobby_id = 40;
  expedition_lobby_id = 30;
  authority_commit_seq = 2;
  request_nonce = 77;
  client_generation = 3;
  membership = Membership.returning_same_b;
}

abbrev state : State
state = record {
  attempts = empty_attempt ∷ attempt ∷ [];
  pinned = empty_pinned ∷ empty_pinned ∷ [];
  snapshots = hot ∷ [];
}

abbrev clock : PinClock
clock = record { first = 100; second = 101; third = 102 }

abbrev pinned_state : State
pinned_state = (pin clock attempt state).1

run_pin : (pin clock attempt state).0 ≡ some (key_of hot)
unfolding program
run_pin = refl

run_copy : copy_pinned (named (key_of hot) attempt) pinned_state.pinned ≡ some (key_of hot, payload)
unfolding program
run_copy = refl

abbrev deliver_clock : DeliverClock
deliver_clock = record { start = 99; pins = clock; seen = λ i. 103; sent = 104 }

run_deliver : length (deliver_due (λ q. true) true 98 (λ n. deliver_clock) state).0 ≡ 1
unfolding program
run_deliver = refl

copy_pinned-clear_example :
    (attempt.reservation_serial ≡ 6
      → copy_pinned attempt (clear_for_serial 6 pinned_state.pinned) ≡ none)
    × (attempt.reservation_serial ≢ 6
        → copy_pinned attempt (clear_for_serial 6 pinned_state.pinned)
          ≡ copy_pinned attempt pinned_state.pinned)
    × (attempt.steam_id ≡ 12 → copy_pinned attempt (clear_for_peer 12 pinned_state.pinned) ≡ none)
    × (attempt.steam_id ≢ 12
        → copy_pinned attempt (clear_for_peer 12 pinned_state.pinned)
          ≡ copy_pinned attempt pinned_state.pinned)
copy_pinned-clear_example =
    copy_pinned-clear attempt pinned_state.pinned 6 12 (λ e. omega arith) (λ e. omega arith)

all-IsNamed : (j : ℕ) → IsNamed (get_or state.attempts j empty_attempt)
all-IsNamed zero h = (refl, refl, refl)
all-IsNamed (suc zero) h = (refl, refl, refl)
all-IsNamed (suc (suc j)) h = (refl, refl, refl)

all_live :
    (j : ℕ)
    → j < 2
    → is_same_attempt_identity (get_or state.attempts j empty_attempt) attempt ≡ true
    → 101 < (get_or state.attempts j empty_attempt).expires_tick_ms
unfolding is_same_attempt_identity is_same_tuple
all_live zero lt h = cc
all_live (suc zero) lt h = omega arith
all_live (suc (suc j)) lt h = cc

pin-pin_example :
    pin clock attempt (record pinned_state { snapshots = [] })
    ≡ (some (key_of hot), record pinned_state { snapshots = [] })
pin-pin_example =
    pin-pin clock clock attempt state (key_of hot) [] run_pin all-IsNamed (omega arith) all_live

deliver_due_lem_example :
    All
      (λ q.
        (a : Attempt) × ((i : ℕ) × (i < 2)
          × (get_or state.attempts i empty_attempt ≡ a)
          × (is_due 98 a ≡ true))
        × IsFor a q)
      (deliver_due (λ q. true) true 98 (λ n. deliver_clock) state).0
    × (true ≡ false → (deliver_due (λ q. true) true 98 (λ n. deliver_clock) state).0 ≡ [])
deliver_due_lem_example = deliver_due_lem (λ q. true) true 98 (λ n. deliver_clock) state
