-- ===== src/Admission/Commit.antt =====
-- `CommitBhrcHostAdmissionAttempt` after a reservation: the inbound events of the peer.
use revenant_fix.Prelude.{
  ℕ, ◌≡◌, refl, Bool, true, false, ◌&&◌, not, some, List, [], ◌∷◌, if◌then◌else◌, zero, suc, get_or,
  arith,
}
use revenant_fix.Admission.{
  Attempt, Reservation, InboundSlot, Packet, Phase, Membership, empty_inbound,
}
use revenant_fix.Admission.Table.{Host, is_same_peer, is_same_attempt, clear_stale, reserve, commit}
use revenant_fix.Admission.Reserve.{IsValid}
use revenant_fix.Admission.Rollback.{reserve-is_current}

blank_is_nobody : (a : Attempt) → is_same_peer a empty_inbound ≡ false
unfolding is_same_peer
blank_is_nobody a = refl

-- Whether an event is of the peer, but of another attempt.
abbrev pub is_stale : Attempt → InboundSlot → Bool
is_stale a s = is_same_peer a s && not (is_same_attempt a s)

get-clear_stale :
    (a : Attempt) (ss : List InboundSlot) (j : ℕ)
    → get_or (clear_stale a ss) j empty_inbound ≡ (
        if is_stale a (get_or ss j empty_inbound) then empty_inbound else get_or ss j empty_inbound)
unfolding clear_stale
get-clear_stale a [] j = rw (blank_is_nobody a) refl
get-clear_stale a (s ∷ ss) zero = refl
get-clear_stale a (s ∷ ss) (suc j) = get-clear_stale a ss j

-- A reservation can be committed right after it, with no other call between. After that commit no
-- event of the peer is left that belongs to another attempt; every other event is as before, and so
-- are the attempts.
pub commit-reserve :
    (sender : ℕ) (packet : Packet) (phase : Phase) (membership : Membership) (now : ℕ) (h : Host)
    (r : Reservation) (h' : Host) (phase' : Phase) (j : ℕ)
    → IsValid h
    → reserve sender packet phase membership now h ≡ (some r, h')
    → ((commit r phase' h').0 ≡ true)
      × ((commit r phase' h').1.attempts ≡ h'.attempts)
      × (is_stale r.admitted (get_or (commit r phase' h').1.inbound j empty_inbound) ≡ false)
      × (get_or (commit r phase' h').1.inbound j empty_inbound ≡ (
          if is_stale r.admitted (get_or h'.inbound j empty_inbound)
          then empty_inbound
          else get_or h'.inbound j empty_inbound))
unfolding commit
commit-reserve sender packet phase membership now h r h' phase' j v done =
    let (inside, current) = reserve-is_current sender packet phase membership now h r h' v done in
    let read = get-clear_stale r.admitted h'.inbound j in
    rw (inside, current) (refl, refl, rw read (ground (arith, blank_is_nobody r.admitted)), read)
