-- ===== src/Admission/Inbound.antt =====
-- What the functions of Admission/Events promise: events are stored once, marks are seen, and a peer
-- that is cleared leaves nothing. The code is in src/reconnect_fix.cpp.
use revenant_fix.Prelude.{
  ℕ, zero, suc, ◌+◌, ◌%◌, ◌^◌, ◌≡◌, ◌≢◌, ◌≤◌, ◌<◌, refl, sym, ap, ◌∙◌, Bool, true, false, ◌&&◌,
  ◌||◌, some, List, [], ◌∷◌, ltb, ◌==◌, arith, Bool-cases, inl, inr, find_index, find_elem,
  find-cases, find_elem-some, find_elem_unique, find_index-set_new, count, count-le, count-pos,
  count-set, place_unique, get_or, get_or-set_self, get_or-set_ne, set, length, length-set,
  none≢some, bit_or, if◌then◌else◌, take,
}
use mathlib.Core.Bool.{false≢true}
use revenant_fix.Admission.{Attempt, InboundSlot, empty_attempt, empty_inbound}
use revenant_fix.Admission.Table.{lifetime, Host, is_of}
use revenant_fix.Admission.Events.{
  EventPacket, is_attempt, snapshot_attempt, marked, mark_event, is_same_event, is_duplicate,
  is_open, slot_of, store_event, clear_attempts, is_with, clear_slots, clear_peer,
}

pub same-slot_of :
    (sender now : ℕ) (p : EventPacket) → is_same_event sender p (slot_of sender now p) ≡ true
unfolding is_same_event
same-slot_of sender now p = ground arith

pub duplicate-slot_of :
    (sender now : ℕ) (p : EventPacket) → is_duplicate p (slot_of sender now p) ≡ true
unfolding is_duplicate
duplicate-slot_of sender now p = ground arith

-- A retry of the packet before.
pub store_event-store_event :
    (sender now again : ℕ) (p : EventPacket) (slots : List InboundSlot)
    → (store_event sender now p slots).ok ≡ true
    → store_event sender again p (store_event sender now p slots).slots
      ≡ record { ok = true; stored = false; slots = (store_event sender now p slots).slots }
unfolding store_event
store_event-store_event sender now again p slots h =
    elim (find-cases (is_same_event sender p) slots empty_inbound) [
      | inr (i, f, lt, t) ↦
          let dup : is_duplicate p (get_or slots i empty_inbound) ≡ true =
            (rw (f, store_event) at h) in
          let first : store_event sender now p slots
              ≡ record { ok = true; stored = false; slots = slots } =
            rw (f, store_event, dup) refl in
          rw first (rw (f, store_event, dup) refl)
      | inl (f, c) ↦ elim (find-cases is_open slots empty_inbound) [
        | inl (g, none_open) ↦ absurd (false≢true (rw (f, store_event, g) at h))
        | inr (i, g, lt, t) ↦
            let new = slot_of sender now p in
            let hit =
              find_index-set_new (is_same_event sender p) slots i new c lt
                (same-slot_of sender now p) in
            let dup : is_duplicate p (get_or (set slots i new) i empty_inbound) ≡ true =
              rw (get_or-set_self slots i new empty_inbound lt) (duplicate-slot_of sender now p) in
            let first : store_event sender now p slots
                ≡ record { ok = true; stored = true; slots = set slots i new } =
              rw (f, store_event, g) refl in
            rw first (rw (hit, store_event, dup) refl)
      ]
    ]

-- An event that is valid and was not consumed is never overwritten. An accepted packet is in the
-- table: a slot of its attempt and event has its target, key, lobbies, generation, size and
-- fingerprint. A packet that this call stored is in a slot that is valid, not consumed and not
-- reserved, with the time of the call, the sender, the packet's fields and as many bytes of its
-- payload as its size says.
pub store_event_lem :
    (sender now : ℕ) (p : EventPacket) (slots : List InboundSlot)
    → ((i : ℕ)
        → is_open (get_or slots i empty_inbound) ≡ false
        → get_or (store_event sender now p slots).slots i empty_inbound
          ≡ get_or slots i empty_inbound)
      × ((store_event sender now p slots).ok ≡ true
          → (i : ℕ) × (i < length slots)
            × (is_same_event sender p
                  (get_or (store_event sender now p slots).slots i empty_inbound)
                ≡ true)
            × (is_duplicate p (get_or (store_event sender now p slots).slots i empty_inbound)
                ≡ true))
      × ((store_event sender now p slots).stored ≡ true
          → (i : ℕ) × (i < length slots)
            × (get_or (store_event sender now p slots).slots i empty_inbound ≡ record {
              valid = true;
              consumed = false;
              reservation_id = 0;
              received_tick_ms = now;
              sender_steam_id = sender;
              target_steam_id = p.target_steam_id;
              source_record_key = p.record_key;
              master_lobby_id = p.master_lobby_id;
              expedition_lobby_id = p.expedition_lobby_id;
              authority_commit_seq = p.authority_commit_seq;
              request_nonce = p.request_nonce;
              client_generation = p.client_generation;
              event_id = p.event_id;
              payload_size = p.payload_size;
              payload_hash32 = p.payload_hash32;
              payload = take p.payload_size p.payload;
            }))
unfolding store_event
store_event_lem sender now p slots =
    elim (find-cases (is_same_event sender p) slots empty_inbound) [
      | inr (i, f, lt, t) ↦
          rw (f, store_event) (λ j h. refl, λ h. (i, lt, t, h), λ h. absurd (false≢true h))
      | inl (f, c) ↦ elim (find-cases is_open slots empty_inbound) [
        | inl (g, none_open) ↦
            rw (f, store_event, g)
              (λ j h. refl, λ h. absurd (false≢true h), λ h. absurd (false≢true h))
        | inr (i, g, lt, t) ↦
            let new = slot_of sender now p in
            let here = get_or-set_self slots i new empty_inbound lt in
            rw (f, store_event, g)
              (
                λ j h.
                    get_or-set_ne slots i j new empty_inbound
                      (λ e. absurd (false≢true (sym (rw (sym e) at h) ∙ t))),
                λ h. (
                  i,
                  lt,
                  rw here (same-slot_of sender now p),
                  rw here (duplicate-slot_of sender now p),
                ),
                λ h. (i, lt, here),
              )
      ]
    ]

find_elem-clear :
    (peer q : ℕ) (xs : List Attempt)
    → q ≢ peer
    → find_elem (is_of q) (clear_attempts peer xs) ≡ find_elem (is_of q) xs
unfolding find_elem clear_attempts
find_elem-clear peer q [] h = refl
find_elem-clear peer q (a ∷ rest) h = ground (arith, h, find_elem-clear peer q rest h)

count-clear : (peer : ℕ) (xs : List Attempt) → count (is_of peer) (clear_attempts peer xs) ≡ 0
unfolding count clear_attempts
count-clear peer [] = refl
count-clear peer (a ∷ rest) = ground (arith, count-clear peer rest)

count-clear_slots :
    (peer : ℕ) (xs : List InboundSlot) → count (is_with peer) (clear_slots peer xs) ≡ 0
unfolding count clear_slots
count-clear_slots peer [] = refl
count-clear_slots peer (s ∷ rest) = ground (arith, count-clear_slots peer rest)

get_or-clear_slots :
    (peer i : ℕ) (xs : List InboundSlot)
    → is_with peer (get_or xs i empty_inbound) ≡ false
    → get_or (clear_slots peer xs) i empty_inbound ≡ get_or xs i empty_inbound
unfolding clear_slots
get_or-clear_slots peer i [] h = refl
get_or-clear_slots peer zero (s ∷ rest) h = rw h refl
get_or-clear_slots peer (suc i) (s ∷ rest) h = get_or-clear_slots peer i rest h

-- A peer that is cleared, other than 0, has no attempt and no event any more, sent or received;
-- the attempts of other peers and the events without the peer are as they were.
pub clear_peer_lem :
    (peer : ℕ) (h : Host)
    → peer ≢ 0
    → (count (is_of peer) (clear_peer peer h).attempts ≡ 0)
      × (count (is_with peer) (clear_peer peer h).inbound ≡ 0)
      × ((q : ℕ)
          → q ≢ peer
          → find_elem (is_of q) (clear_peer peer h).attempts ≡ find_elem (is_of q) h.attempts)
      × ((i : ℕ)
          → is_with peer (get_or h.inbound i empty_inbound) ≡ false
          → get_or (clear_peer peer h).inbound i empty_inbound ≡ get_or h.inbound i empty_inbound)
unfolding clear_peer
clear_peer_lem peer h nz =
    let z : (peer == 0) ≡ false = ground (arith, nz) in
    rw z (
      count-clear peer h.attempts,
      count-clear_slots peer h.inbound,
      λ q n. find_elem-clear peer q h.attempts n,
      λ i e. get_or-clear_slots peer i h.inbound e,
    )

is_attempt-of :
    (peer nonce : ℕ) (x : Attempt) → is_attempt peer nonce x ≡ true → is_of peer x ≡ true
unfolding is_attempt
is_attempt-of peer nonce x h = ground arith

-- Where a peer has one attempt at most, its place is found.
place_of :
    (peer nonce : ℕ) (xs : List Attempt) (i : ℕ) (a : Attempt)
    → count (is_of peer) xs ≤ 1
    → i < length xs
    → get_or xs i empty_attempt ≡ a
    → is_attempt peer nonce a ≡ true
    → find_index (is_attempt peer nonce) xs ≡ some i
place_of peer nonce xs i a once lt at own =
    let own_at : is_attempt peer nonce (get_or xs i empty_attempt) ≡ true = rw at own in
    elim (find-cases (is_attempt peer nonce) xs empty_attempt) [
      | inl (g, c) ↦
          absurd (omega (arith, count-pos (is_attempt peer nonce) xs i empty_attempt lt own_at))
      | inr (j, g, lj, tj) ↦
          g
          ∙ ap some (
              place_unique (is_of peer) xs j i empty_attempt once lj lt
                (is_attempt-of peer nonce (get_or xs j empty_attempt) tj)
                (is_attempt-of peer nonce (get_or xs i empty_attempt) own_at))
    ]

unfoldable is_alive : ℕ → ℕ → ℕ → Attempt → Bool
is_alive peer nonce now x = is_attempt peer nonce x && ltb now x.expires_tick_ms

alive_of :
    (peer nonce now : ℕ) (x : Attempt) → is_alive peer nonce now x ≡ true → is_of peer x ≡ true
unfolding is_attempt is_alive
alive_of peer nonce now x h = ground arith

marked-alive :
    (peer nonce mask now later : ℕ) (sent : Bool) (a : Attempt)
    → is_attempt peer nonce a ≡ true
    → later < (now + lifetime a.trigger) % 2 ^ 64
    → is_alive peer nonce later (marked mask sent now a) ≡ true
unfolding is_attempt is_alive
marked-alive peer nonce mask now later sent a own alive = ground arith

marked_found :
    (peer nonce mask now later : ℕ) (sent : Bool) (xs : List Attempt) (a : Attempt) (i : ℕ)
    → count (is_of peer) xs ≤ 1
    → i < length xs
    → get_or xs i empty_attempt ≡ a
    → is_attempt peer nonce a ≡ true
    → later < (now + lifetime a.trigger) % 2 ^ 64
    → find_elem (is_alive peer nonce later) (set xs i (marked mask sent now a))
      ≡ some (marked mask sent now a)
marked_found peer nonce mask now later sent xs a i once lt at own alive =
    let new = marked mask sent now a in
    let here = get_or-set_self xs i new empty_attempt lt in
    let le =
      count-le (is_alive peer nonce later) (is_of peer) (alive_of peer nonce later)
        (set xs i new) in
    let moved = count-set (is_of peer) xs i new empty_attempt lt in
    let old : is_of peer (get_or xs i empty_attempt) ≡ true =
      is_attempt-of peer nonce (get_or xs i empty_attempt) (rw at own) in
    let now_of : is_of peer new ≡ true = is_attempt-of peer nonce a own in
    find_elem_unique (is_alive peer nonce later) (set xs i new) i empty_attempt
      (omega (arith, length-set xs i new, lt))
      (rw here (marked-alive peer nonce mask now later sent a own alive))
      (omega (arith, le, rw (old, now_of) at moved))
    ∙ ap some here

-- A mark is seen: where a peer has one attempt at most and a snapshot finds it alive under a nonce, a
-- snapshot after a mark with a mask that is not 0 finds that attempt, until the lifetime of its
-- trigger is over: the mask is or-ed into that of the sent or into that of the consumed events, the
-- other one is as it was, and the lifetime counts from the time of the mark.
pub snapshot-mark_event :
    (peer nonce mask now later : ℕ) (sent : Bool) (xs : List Attempt) (a : Attempt) (before : ℕ)
    → count (is_of peer) xs ≤ 1
    → mask ≢ 0
    → snapshot_attempt peer nonce before xs ≡ some a
    → later < (now + lifetime a.trigger) % 2 ^ 64
    → snapshot_attempt peer nonce later (mark_event peer nonce mask sent now xs)
      ≡ some (record a {
        sent_event_mask = if sent then bit_or a.sent_event_mask mask else a.sent_event_mask;
        consumed_event_mask =
            if sent then a.consumed_event_mask else bit_or a.consumed_event_mask mask;
        expires_tick_ms = (now + lifetime a.trigger) % 2 ^ 64;
      })
unfolding snapshot_attempt mark_event is_alive
snapshot-mark_event peer nonce mask now later sent xs a before once nz h alive =
    elim (Bool-cases (peer == 0 || nonce == 0)) [
      | inl z ↦ absurd (none≢some (rw (z, snapshot_attempt) refl) h)
      | inr z ↦
          let live = λ (x : Attempt). is_attempt peer nonce x && ltb before x.expires_tick_ms in
          let (i, fi, lt, at, t) =
            find_elem-some live xs empty_attempt a (rw (z, snapshot_attempt) at h) in
          let zm : (peer == 0 || (nonce == 0 || mask == 0)) ≡ false = ground (arith, nz, z) in
          let own : is_attempt peer nonce a ≡ true = ground (arith, t) in
          let place = place_of peer nonce xs i a once lt at own in
          rw (zm, mark_event, place, at, z)
            (marked_found peer nonce mask now later sent xs a i once lt at own alive)
    ]
