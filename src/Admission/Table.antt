-- ===== src/Admission/Table.antt =====
-- The operations on the attempts, and the inbound events that a commit clears. Readings of
-- `GetTickCount64` are arguments, and a call of another component is an entry of a list.
use revenant_fix.Prelude.{
  ℕ, ◌+◌, ◌%◌, ◌^◌, Bool, true, false, ◌&&◌, ◌||◌, not, Option, none, some, List, [], ◌∷◌, ◌++◌,
  ltb, leb, ◌==◌, if◌then◌else◌, get_or, set, is_some,
}
use revenant_fix.Admission.{
  Attempt, Reservation, InboundSlot, Phase, Packet, Membership, empty_attempt, empty_inbound,
  trigger_startup_previous_session,
}

abbrev pub capacity : ℕ
capacity = 6

-- `g_bhrc_host_admission_attempts`, `g_bhrc_host_admission_reservation_counter` and
-- `g_bhrc_inbound_native_event_slots`.
pub record Host : Type 0 where
  pub attempts : List Attempt
  pub reservation_counter : ℕ
  pub inbound : List InboundSlot

-- The calls of other components.
pub data Effect : Type 0 where
  clear_pinned_restore_for_serial : ℕ → Effect
  ensure_returning_member_retention : ℕ → ℕ → Phase → Effect
  send_cached_generation_payloads : ℕ → Effect
  send_full_pgd_restore : Attempt → Effect

abbrev pub membership_code : Membership → ℕ
membership_code Membership.unknown = 0
membership_code Membership.returning_same_b = 1
membership_code Membership.ordinary_lobby = 3
membership_code Membership.reject = 4

-- `BhrcNativeAdmissionLifetimeForTrigger`.
unfoldable pub lifetime : ℕ → ℕ
lifetime trigger = if trigger == trigger_startup_previous_session then 300000 else 90000

-- `SameBhrcHostAdmissionTuple`.
unfoldable pub is_same_tuple : Attempt → Attempt → Bool
is_same_tuple l r =
    l.valid
    && (r.valid
        && (l.steam_id == r.steam_id
            && (l.record_key == r.record_key
                && (l.master_lobby_id == r.master_lobby_id
                    && (l.expedition_lobby_id == r.expedition_lobby_id
                        && (l.authority_commit_seq == r.authority_commit_seq
                            && (l.manager_id == r.manager_id
                                && (l.request_nonce == r.request_nonce
                                    && (l.client_generation == r.client_generation
                                        && (l.identity_hash32 == r.identity_hash32
                                            && (l.trigger == r.trigger
                                                && membership_code l.membership
                                                  == membership_code r.membership)))))))))))

abbrev pub is_of : ℕ → Attempt → Bool
is_of sender a = a.valid && a.steam_id == sender

abbrev pub is_available : ℕ → Attempt → Bool
is_available now a = not a.valid || leb a.expires_tick_ms now

-- The loop for the target: the sender's own attempt, or the first free or expired one.
unfoldable pub choose_from : ℕ → ℕ → List Attempt → ℕ → Option ℕ → Option ℕ
choose_from sender now [] i target = target
choose_from sender now (a ∷ rest) i target =
    let later : Option ℕ =
      choose_from sender now rest (i + 1)
        (if is_available now a && not (is_some target) then some i else target) in
    if is_of sender a then some i else later

-- The guards of `ReserveBhrcHostAdmissionAttempt`.
unfoldable pub is_admissible : ℕ → Packet → Phase → Membership → Bool
is_admissible sender packet phase membership =
    not (sender == 0)
    && (not (packet.request_nonce == 0)
        && (phase.authority_live
            && (not (phase.commit_seq == 0)
                && (not (phase.lobby_id == 0)
                    && (not (phase.master_lobby_id == 0) && membership_code membership == 1)))))

-- The counter after `++`, which skips 0.
unfoldable pub next_serial : ℕ → ℕ
next_serial n = let m : ℕ = (n + 1) % 2 ^ 64 in if m == 0 then 1 else m

-- The attempt for the request, with nothing sent.
abbrev pub new_attempt : ℕ → Packet → Phase → Membership → ℕ → ℕ → Attempt
new_attempt sender packet phase membership now serial = record empty_attempt {
  valid = true;
  reservation_serial = serial;
  admitted_tick_ms = now;
  expires_tick_ms = (now + lifetime packet.trigger) % 2 ^ 64;
  steam_id = sender;
  record_key = packet.record_key;
  master_lobby_id = phase.master_lobby_id;
  expedition_lobby_id = phase.lobby_id;
  authority_commit_seq = phase.commit_seq;
  manager_id = phase.manager_id;
  request_nonce = packet.request_nonce;
  client_generation = packet.client_generation;
  identity_hash32 = packet.identity_hash32;
  trigger = packet.trigger;
  membership = membership;
}

-- A repeated request takes over what was sent for the same tuple.
unfoldable pub inherit : Attempt → Attempt → Attempt
inherit previous next =
    if is_same_tuple previous next
    then record next {
      sent_event_mask = previous.sent_event_mask;
      consumed_event_mask = previous.consumed_event_mask;
      last_full_pgd_send_tick_ms = previous.last_full_pgd_send_tick_ms;
      full_pgd_codec_version = previous.full_pgd_codec_version;
      full_pgd_snapshot_revision = previous.full_pgd_snapshot_revision;
      full_pgd_payload_size = previous.full_pgd_payload_size;
      full_pgd_snapshot_hash32 = previous.full_pgd_snapshot_hash32;
      full_pgd_restore_sent = previous.full_pgd_restore_sent;
    }
    else next

-- The locked part once the target is known. `replaced` is true for an own attempt, which is valid,
-- and the validity of the place otherwise.
unfoldable pub reserve_at : ℕ → Packet → Phase → Membership → ℕ → Host → ℕ → Reservation × Host
reserve_at sender packet phase membership now h i =
    let previous : Attempt = get_or h.attempts i empty_attempt in
    let serial : ℕ = next_serial h.reservation_counter in
    let next : Attempt = inherit previous (new_attempt sender packet phase membership now serial) in
    (
      record { replaced = previous.valid; slot_index = i; previous = previous; admitted = next },
      record h { attempts = set h.attempts i next; reservation_counter = serial },
    )

-- `ReserveBhrcHostAdmissionAttempt`, with a place for the reservation.
unfoldable pub reserve : ℕ → Packet → Phase → Membership → ℕ → Host → Option Reservation × Host
reserve sender packet phase membership now h =
    if not (is_admissible sender packet phase membership)
    then (none, h)
    else elim (choose_from sender now h.attempts 0 none) [
      | none ↦ (none, h)
      | some i ↦
          let done : Reservation × Host = reserve_at sender packet phase membership now h i in
          (some done.0, done.1)
    ]

-- Whether the reservation is still the one of its place.
unfoldable pub is_current : Reservation → Host → Bool
is_current r h =
    let current : Attempt = get_or h.attempts r.slot_index empty_attempt in
    current.valid && current.reservation_serial == r.admitted.reservation_serial

-- The two tests of the loop over the inbound events.
unfoldable pub is_same_peer : Attempt → InboundSlot → Bool
is_same_peer a s = s.valid && (s.sender_steam_id == a.steam_id || s.target_steam_id == a.steam_id)

unfoldable pub is_same_attempt : Attempt → InboundSlot → Bool
is_same_attempt a s =
    is_same_peer a s
    && (s.request_nonce == a.request_nonce
        && (s.master_lobby_id == a.master_lobby_id
            && (s.expedition_lobby_id == a.expedition_lobby_id
                && (s.authority_commit_seq == a.authority_commit_seq
                    && s.client_generation == a.client_generation))))

-- The loop: an event of the peer that is of another attempt is cleared.
unfoldable pub clear_stale : Attempt → List InboundSlot → List InboundSlot
clear_stale a [] = []
clear_stale a (s ∷ ss) =
    (if is_same_peer a s && not (is_same_attempt a s) then empty_inbound else s) ∷ clear_stale a ss

-- `CommitBhrcHostAdmissionAttempt`: the result, the host, and the calls in their order.
unfoldable pub commit : Reservation → Phase → Host → Bool × Host × List Effect
commit r phase h =
    if leb capacity r.slot_index
    then (false, h, [])
    else if not (is_current r h)
    then (false, h, clear_pinned_restore_for_serial r.admitted.reservation_serial ∷ [])
    else (let returning : Bool = membership_code r.admitted.membership == 1 in
        (
          true,
          record h { inbound = clear_stale r.admitted h.inbound },
          (if r.previous.valid
                  && not (r.previous.reservation_serial == r.admitted.reservation_serial)
                then clear_pinned_restore_for_serial r.previous.reservation_serial ∷ []
                else [])
              ++ (if returning
                  then ensure_returning_member_retention r.admitted.steam_id r.admitted.record_key
                      phase
                    ∷ []
                  else [])
              ++ (send_cached_generation_payloads r.admitted.steam_id ∷ [])
              ++ (if returning then send_full_pgd_restore r.admitted ∷ [] else []),
        ))

-- `RollbackBhrcHostAdmissionAttempt`, with its two readings of the clock.
unfoldable pub rollback : Reservation → ℕ → ℕ → Host → Host × List Effect
rollback r now after h =
    if leb capacity r.slot_index
    then (h, [])
    else (let restored : Attempt =
          if r.previous.valid && ltb now r.previous.expires_tick_ms
          then r.previous
          else empty_attempt in
        (
          if is_current r h
              then record h { attempts = set h.attempts r.slot_index restored }
              else h,
          clear_pinned_restore_for_serial r.admitted.reservation_serial
              ∷ (if r.previous.valid && leb r.previous.expires_tick_ms after
                  then clear_pinned_restore_for_serial r.previous.reservation_serial ∷ []
                  else []),
        ))
