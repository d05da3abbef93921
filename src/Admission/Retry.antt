-- ===== src/Admission/Retry.antt =====
-- Retries of native events, in `StoreBhrcInboundNativeEvent` of src/reconnect_fix.cpp: what a packet
-- finds that was stored before, whatever came in between.
use revenant_fix.Prelude.{
  ℕ, ◌≡◌, ◌≢◌, ◌≤◌, ◌<◌, refl, sym, ◌∙◌, true, false, List, [], ◌∷◌, arith, Bool-cases, inl, inr,
  find-cases, count, count-pos, count-set, place_unique, get_or, get_or-set_self, get_or-set_ne,
  set, length, length-set,
}
use mathlib.Core.Bool.{false≢true}
use revenant_fix.Admission.{InboundSlot, empty_inbound}
use revenant_fix.Admission.Events.{
  EventPacket, is_same_event, is_duplicate, is_open, slot_of, store_event,
}
use revenant_fix.Admission.Inbound.{same-slot_of, duplicate-slot_of, store_event-store_event}

-- A packet, with its sender and the time at which it comes.
pub record Arrival : Type 0 where
  pub sender : ℕ
  pub at : ℕ
  pub packet : EventPacket

-- The slots after packets that come one after another.
pub store_all : List Arrival → List InboundSlot → List InboundSlot
store_all [] slots = slots
store_all (x ∷ rest) slots = store_all rest (store_event x.sender x.at x.packet slots).slots

-- The packet waits in the one slot of its attempt and event.
record IsWaiting (sender : ℕ) (p : EventPacket) (slots : List InboundSlot) : Type 0 where
  once : count (is_same_event sender p) slots ≤ 1
  index : ℕ
  below : index < length slots
  same : is_same_event sender p (get_or slots index empty_inbound) ≡ true
  duplicate : is_duplicate p (get_or slots index empty_inbound) ≡ true
  closed : is_open (get_or slots index empty_inbound) ≡ false

stored-IsWaiting :
    (sender now : ℕ) (p : EventPacket) (slots : List InboundSlot)
    → (store_event sender now p slots).stored ≡ true
    → IsWaiting sender p (store_event sender now p slots).slots
unfolding store_event
stored-IsWaiting sender now p slots h =
    elim (find-cases (is_same_event sender p) slots empty_inbound) [
      | inr (i, f, lt, t) ↦ absurd (false≢true (rw (f, store_event) at h))
      | inl (f, c) ↦ elim (find-cases is_open slots empty_inbound) [
        | inl (g, none_open) ↦ absurd (false≢true (rw (f, store_event, g) at h))
        | inr (i, g, lt, t) ↦ rw (f, store_event, g) (written i lt c)
      ]
    ]
  where
    written :
        (i : ℕ)
        → i < length slots
        → count (is_same_event sender p) slots ≡ 0
        → IsWaiting sender p (set slots i (slot_of sender now p))
    written i lt c =
        let new = slot_of sender now p in
        let here = get_or-set_self slots i new empty_inbound lt in
        let more = count-set (is_same_event sender p) slots i new empty_inbound lt in
        record {
          once = ground (arith, more, c);
          index = i;
          below = omega (arith, lt, length-set slots i new);
          same = rw here (same-slot_of sender now p);
          duplicate = rw here (duplicate-slot_of sender now p);
          closed = rw here refl;
        }

-- Packets of one attempt and event look for the same slot.
same_event-eq :
    (sender other now : ℕ) (p q : EventPacket) (s : InboundSlot)
    → is_same_event sender p (slot_of other now q) ≡ true
    → is_same_event sender p s ≡ true
    → is_same_event other q s ≡ true
unfolding is_same_event
same_event-eq sender other now p q s h k = ground arith

-- Another packet leaves it there.
store_event-IsWaiting :
    (sender other now : ℕ) (p q : EventPacket) (slots : List InboundSlot)
    → IsWaiting sender p slots
    → IsWaiting sender p (store_event other now q slots).slots
unfolding store_event
store_event-IsWaiting sender other now p q slots w =
    elim (find-cases (is_same_event other q) slots empty_inbound) [
      | inr (i, f, lt, t) ↦ rw (f, store_event) w
      | inl (f, c) ↦ elim (find-cases is_open slots empty_inbound) [
        | inl (g, none_open) ↦ rw (f, store_event, g) w
        | inr (i, g, lt, t) ↦ rw (f, store_event, g) (kept i lt t c)
      ]
    ]
  where
    kept :
        (i : ℕ)
        → i < length slots
        → is_open (get_or slots i empty_inbound) ≡ true
        → count (is_same_event other q) slots ≡ 0
        → IsWaiting sender p (set slots i (slot_of other now q))
    kept i lt t c =
        let new = slot_of other now q in
        let here = get_or slots w.index empty_inbound in
        let apart : i ≢ w.index = λ e. absurd (false≢true (sym (rw (sym e) at w.closed) ∙ t)) in
        let there = get_or-set_ne slots i w.index new empty_inbound apart in
        let more = count-set (is_same_event sender p) slots i new empty_inbound lt in
        elim (Bool-cases (is_same_event sender p new)) [
          | inl u ↦
              let hit = same_event-eq sender other now p q here u w.same in
              absurd (
                omega (
                  arith,
                  c,
                  count-pos (is_same_event other q) slots w.index empty_inbound w.below hit,
                ))
          | inr u ↦ record {
            once = ground (arith, more, w.once, u);
            index = w.index;
            below = omega (arith, w.below, length-set slots i new);
            same = rw there w.same;
            duplicate = rw there w.duplicate;
            closed = rw there w.closed;
          }
        ]

store_all-IsWaiting :
    (sender : ℕ) (p : EventPacket) (others : List Arrival) (slots : List InboundSlot)
    → IsWaiting sender p slots
    → IsWaiting sender p (store_all others slots)
unfolding store_all
store_all-IsWaiting sender p [] slots w = w
store_all-IsWaiting sender p (x ∷ rest) slots w =
    store_all-IsWaiting sender p rest (store_event x.sender x.at x.packet slots).slots
      (store_event-IsWaiting sender x.sender x.at p x.packet slots w)

waiting_found :
    (sender now : ℕ) (p : EventPacket) (slots : List InboundSlot)
    → IsWaiting sender p slots
    → store_event sender now p slots ≡ record { ok = true; stored = false; slots = slots }
unfolding store_event
waiting_found sender now p slots w =
    elim (find-cases (is_same_event sender p) slots empty_inbound) [
      | inl (f, c) ↦ absurd (
          omega (
            arith,
            c,
            count-pos (is_same_event sender p) slots w.index empty_inbound w.below w.same,
          ))
      | inr (i, f, lt, t) ↦
          let same : w.index ≡ i =
            place_unique (is_same_event sender p) slots w.index i empty_inbound w.once w.below lt
              w.same t in
          let dup : is_duplicate p (get_or slots i empty_inbound) ≡ true =
            rw (same) at w.duplicate in
          rw (f, store_event, dup) refl
    ]

-- A packet that was accepted and comes again as the very next one, whatever the time, is accepted
-- and changes nothing. The same holds for a packet that was stored and comes again after any other
-- packets from anyone, as long as no event is consumed or cleared in between.
pub store_event-store_all :
    (sender now again : ℕ) (p : EventPacket) (others : List Arrival) (slots : List InboundSlot)
    → ((store_event sender now p slots).ok ≡ true
        → store_event sender again p (store_event sender now p slots).slots
          ≡ record { ok = true; stored = false; slots = (store_event sender now p slots).slots })
      × ((store_event sender now p slots).stored ≡ true
          → store_event sender again p (store_all others (store_event sender now p slots).slots)
            ≡ record {
              ok = true;
              stored = false;
              slots = store_all others (store_event sender now p slots).slots;
            })
store_event-store_all sender now again p others slots = (
  λ h. store_event-store_event sender now again p slots h,
  λ h. waiting_found sender again p (store_all others (store_event sender now p slots).slots) (
      store_all-IsWaiting sender p others (store_event sender now p slots).slots
        (stored-IsWaiting sender now p slots h)),
)
