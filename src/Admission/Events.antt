-- ===== src/Admission/Events.antt =====
-- Native events of an admission in src/reconnect_fix.cpp: `SnapshotBhrcHostAdmissionAttempt`,
-- `MarkBhrcHostAdmissionEvent`, `StoreBhrcInboundNativeEvent`, and what
-- `ClearBhrcNativeAdmissionForPeer` does to the two tables.
use revenant_fix.Prelude.{
  ℕ, ◌+◌, ◌%◌, ◌^◌, Bool, true, false, ◌&&◌, ◌||◌, not, Option, none, some, List, [], ◌∷◌, ltb,
  ◌==◌, bit_or, if◌then◌else◌, find_index, find_elem, get_or, set, take,
}
use revenant_fix.Admission.{Attempt, InboundSlot, empty_attempt, empty_inbound}
use revenant_fix.Admission.Table.{lifetime, Host, is_of}

-- The fields of `RevenantFixNativeEventPacket`, with the target of its header.
pub record EventPacket : Type 0 where
  pub target_steam_id : ℕ
  pub record_key : ℕ
  pub master_lobby_id : ℕ
  pub expedition_lobby_id : ℕ
  pub authority_commit_seq : ℕ
  pub request_nonce : ℕ
  pub client_generation : ℕ
  pub event_id : ℕ
  pub payload_size : ℕ
  pub payload_hash32 : ℕ
  pub payload : List ℕ

-- The attempt of a peer under a nonce.
unfoldable pub is_attempt : ℕ → ℕ → Attempt → Bool
is_attempt steam_id nonce a = is_of steam_id a && a.request_nonce == nonce

-- `SnapshotBhrcHostAdmissionAttempt`: what it writes to `*out`, `none` where it returns false.
unfoldable pub snapshot_attempt : ℕ → ℕ → ℕ → List Attempt → Option Attempt
snapshot_attempt steam_id nonce now attempts =
    if steam_id == 0 || nonce == 0
    then none
    else find_elem (λ a. is_attempt steam_id nonce a && ltb now a.expires_tick_ms) attempts

-- What `MarkBhrcHostAdmissionEvent` writes to its attempt.
abbrev pub marked : ℕ → Bool → ℕ → Attempt → Attempt
marked mask sent now a = record a {
  sent_event_mask = if sent then bit_or a.sent_event_mask mask else a.sent_event_mask;
  consumed_event_mask = if sent then a.consumed_event_mask else bit_or a.consumed_event_mask mask;
  expires_tick_ms = (now + lifetime a.trigger) % 2 ^ 64;
}

-- `MarkBhrcHostAdmissionEvent`.
unfoldable pub mark_event : ℕ → ℕ → ℕ → Bool → ℕ → List Attempt → List Attempt
mark_event steam_id nonce mask sent now attempts =
    if steam_id == 0 || (nonce == 0 || mask == 0)
    then attempts
    else elim (find_index (is_attempt steam_id nonce) attempts) [
      | none ↦ attempts
      | some i ↦ set attempts i (marked mask sent now (get_or attempts i empty_attempt))
    ]

-- `same_attempt_event`.
unfoldable pub is_same_event : ℕ → EventPacket → InboundSlot → Bool
is_same_event sender p s =
    s.valid
    && (s.sender_steam_id == sender
        && (s.request_nonce == p.request_nonce
            && (s.event_id == p.event_id && s.authority_commit_seq == p.authority_commit_seq)))

-- The slot holds what the packet holds.
unfoldable pub is_duplicate : EventPacket → InboundSlot → Bool
is_duplicate p s =
    s.target_steam_id == p.target_steam_id
    && (s.source_record_key == p.record_key
        && (s.master_lobby_id == p.master_lobby_id
            && (s.expedition_lobby_id == p.expedition_lobby_id
                && (s.client_generation == p.client_generation
                    && (s.payload_hash32 == p.payload_hash32
                        && s.payload_size == p.payload_size)))))

abbrev pub is_open : InboundSlot → Bool
is_open s = not s.valid || s.consumed

-- `next`.
abbrev pub slot_of : ℕ → ℕ → EventPacket → InboundSlot
slot_of sender now p = record {
  valid = true;
  consumed = false;
  reservation_id = 0;
  received_tick_ms = now;
  sender_steam_id = sender;
  target_steam_id = p.target_steam_id;
  source_record_key = p.record_key;
  master_lobby_id = p.master_lobby_id;
  expedition_lobby_id = p.expedition_lobby_id;
  authority_commit_seq = p.authority_commit_seq;
  request_nonce = p.request_nonce;
  client_generation = p.client_generation;
  event_id = p.event_id;
  payload_size = p.payload_size;
  payload_hash32 = p.payload_hash32;
  payload = take p.payload_size p.payload;
}

-- `StoreBhrcInboundNativeEvent`: what it returns, the slots, and whether the packet was stored, in
-- which case the event 0x94 of a client is captured as well.
pub record StoredEvent : Type 0 where
  pub ok : Bool
  pub stored : Bool
  pub slots : List InboundSlot

unfoldable pub store_event : ℕ → ℕ → EventPacket → List InboundSlot → StoredEvent
store_event sender now p slots = elim (find_index (is_same_event sender p) slots) [
  | some i ↦ record {
    ok = is_duplicate p (get_or slots i empty_inbound);
    stored = false;
    slots = slots;
  }
  | none ↦ elim (find_index is_open slots) [
    | none ↦ record { ok = false; stored = false; slots = slots }
    | some i ↦ record { ok = true; stored = true; slots = set slots i (slot_of sender now p) }
  ]
]

-- The loops of `ClearBhrcNativeAdmissionForPeer` over the attempts and over the events.
unfoldable pub clear_attempts : ℕ → List Attempt → List Attempt
clear_attempts steam_id [] = []
clear_attempts steam_id (a ∷ rest) =
    (if is_of steam_id a then empty_attempt else a) ∷ clear_attempts steam_id rest

abbrev pub is_with : ℕ → InboundSlot → Bool
is_with steam_id s = s.valid && (s.sender_steam_id == steam_id || s.target_steam_id == steam_id)

unfoldable pub clear_slots : ℕ → List InboundSlot → List InboundSlot
clear_slots steam_id [] = []
clear_slots steam_id (s ∷ rest) =
    (if is_with steam_id s then empty_inbound else s) ∷ clear_slots steam_id rest

unfoldable pub clear_peer : ℕ → Host → Host
clear_peer steam_id h = if steam_id == 0 then h else record h {
  attempts = clear_attempts steam_id h.attempts;
  inbound = clear_slots steam_id h.inbound;
}
