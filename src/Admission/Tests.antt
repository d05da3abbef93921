-- ===== src/Admission/Tests.antt =====
-- Runs of the admissions, and instances of their theorems.
use revenant_fix.Prelude.{
  ◌≡◌, refl, true, false, some, [], ◌∷◌, get_or, arith, count, find_index, find_elem,
}
use revenant_fix.Admission.{
  Attempt, Reservation, InboundSlot, Packet, Phase, returning_same_b, empty_attempt, empty_inbound,
}
use revenant_fix.Admission.Table.{
  Host, clear_pinned_restore_for_serial, lifetime, is_same_tuple, choose_from, is_admissible,
  next_serial, new_attempt, inherit, reserve_at, reserve, is_current, is_same_peer, is_same_attempt,
  clear_stale, commit, rollback,
}
use revenant_fix.Admission.Reserve.{IsValid, is_live, reserve-IsValid, reserve_ne-live}
use revenant_fix.Admission.Rollback.{rollback-reserve, reserve-supersedes}
use revenant_fix.Admission.Commit.{is_stale, commit-reserve}

program : Unit {0}
unfolding lifetime is_same_tuple choose_from is_admissible next_serial inherit reserve_at reserve
    is_current is_same_peer is_same_attempt clear_stale commit rollback find_index find_elem count
program = tt

abbrev phase : Phase
phase = record {
  authority_live = true;
  commit_seq = 7;
  lobby_id = 31;
  master_lobby_id = 30;
  manager_id = 2;
}

abbrev packet : Packet
packet = record {
  request_nonce = 5;
  trigger = 2;
  record_key = 11;
  client_generation = 1;
  identity_hash32 = 9;
}

abbrev other : Attempt
other = new_attempt 12 packet phase returning_same_b 1000 3

-- One live attempt of peer 12, and an event of peer 11 from an earlier attempt.
abbrev inbound : InboundSlot
inbound = record empty_inbound { valid = true; sender_steam_id = 11; request_nonce = 4 }

abbrev host : Host
host = record {
  attempts =
      other ∷ empty_attempt ∷ empty_attempt ∷ empty_attempt ∷ empty_attempt ∷ empty_attempt ∷ [];
  reservation_counter = 3;
  inbound = inbound ∷ [];
}

abbrev admitted : Attempt
admitted = new_attempt 11 packet phase returning_same_b 2000 4

abbrev reservation : Reservation
reservation = record {
  replaced = false;
  slot_index = 1;
  previous = empty_attempt;
  admitted = admitted;
}

abbrev host_after : Host
host_after = record host {
  attempts = other ∷ admitted ∷ empty_attempt ∷ empty_attempt ∷ empty_attempt ∷ empty_attempt ∷ [];
  reservation_counter = 4;
}

run_reserve : reserve 11 packet phase returning_same_b 2000 host ≡ (some reservation, host_after)
unfolding program
run_reserve = refl

-- A retry takes the own place again.
abbrev retried : Attempt
retried = new_attempt 11 packet phase returning_same_b 2500 5

abbrev retry : Reservation
retry = record { replaced = true; slot_index = 1; previous = admitted; admitted = retried }

abbrev host_retried : Host
host_retried = record host {
  attempts = other ∷ retried ∷ empty_attempt ∷ empty_attempt ∷ empty_attempt ∷ empty_attempt ∷ [];
  reservation_counter = 5;
}

run_retry : reserve 11 packet phase returning_same_b 2500 host_after ≡ (some retry, host_retried)
unfolding program
run_retry = refl

host-IsValid : IsValid host
unfolding count
host-IsValid = record { size = refl; once = λ q. ground arith }

reserve-IsValid_example : IsValid (reserve 11 packet phase returning_same_b 2000 host).1
reserve-IsValid_example = reserve-IsValid 11 packet phase returning_same_b 2000 host host-IsValid

reserve_ne-live_example :
    find_elem (is_live 2000 12) (reserve 11 packet phase returning_same_b 2000 host).1.attempts
    ≡ find_elem (is_live 2000 12) host.attempts
reserve_ne-live_example =
    reserve_ne-live 11 packet phase returning_same_b 2000 host 12 (omega arith)

rollback-reserve_example :
    find_elem (is_live 2100 11) (rollback reservation 2100 2101 host_after).0.attempts
    ≡ find_elem (is_live 2100 11) host.attempts
rollback-reserve_example =
    rollback-reserve 11 packet phase returning_same_b 2000 host reservation host_after 2100 2101 11
      host-IsValid run_reserve

reserve-supersedes_example :
    (commit reservation phase host_retried
      ≡ (false, host_retried, clear_pinned_restore_for_serial 4 ∷ []))
    × ((rollback reservation 2600 2601 host_retried).0 ≡ host_retried)
reserve-supersedes_example =
    reserve-supersedes 11 packet phase returning_same_b 2000 host packet phase returning_same_b 2500
      reservation retry host_after host_retried phase 2600 2601 host-IsValid run_reserve run_retry

commit-reserve_example :
    ((commit reservation phase host_after).0 ≡ true)
    × ((commit reservation phase host_after).1.attempts ≡ host_after.attempts)
    × (is_stale admitted (get_or (commit reservation phase host_after).1.inbound 0 empty_inbound)
        ≡ false)
    × (get_or (commit reservation phase host_after).1.inbound 0 empty_inbound ≡ empty_inbound)
unfolding is_same_peer is_same_attempt
commit-reserve_example =
    commit-reserve 11 packet phase returning_same_b 2000 host reservation host_after phase 0
      host-IsValid run_reserve
