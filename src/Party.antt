-- ===== src/Party.antt =====
-- The party slots of src/core.cpp: `NormalizePartyMemberInfoAfterRemove`, which compacts the slots and
-- repairs their count. A slot is the player handle at its start, a signed number, and the rest of its
-- 0x30 bytes. Accesses to the game's memory are taken to succeed; `none` stands for a null pointer.
pub mod Compact
pub mod Count
mod Tests
use revenant_fix.Prelude.{
  ℕ, zero, suc, ◌+◌, Bool, true, false, ◌&&◌, ◌||◌, not, Option, none, some, ℤ, pos, negsuc, int_eq,
  List, [], ◌∷◌, ◌++◌, ltb, ◌==◌, if◌then◌else◌, get_or, set, length,
}

abbrev pub party_slots : ℕ
party_slots = 6

pub record Slot : Type 0 where
  pub player : ℤ
  pub rest : List ℕ

-- `PartyMemberInfo`: the fields that the function reads and writes. The two native counts are only
-- logged.
pub record PartyInfo : Type 0 where
  pub count : ℤ
  pub native_count_1c : ℤ
  pub native_count_20 : ℤ
  pub slots : List Slot

-- `PartyMemberSlotHasPlayer`.
abbrev pub has_player : Slot → Bool
has_player s = not (int_eq s.player (negsuc 0))

-- The variables of the first loop: `valid_count`, `saw_empty`, `has_slot_hole`.
pub record Scan : Type 0 where
  pub valid_count : ℕ
  pub saw_empty : Bool
  pub has_slot_hole : Bool

unfoldable pub scan_from : Scan → List Slot → Scan
scan_from c [] = c
scan_from c (s ∷ ss) =
    scan_from
      (if has_player s
        then record c {
          valid_count = c.valid_count + 1;
          has_slot_hole = c.has_slot_hole || c.saw_empty;
        }
        else record c { saw_empty = true })
      ss

unfoldable pub scan : List Slot → Scan
scan = scan_from (record { valid_count = 0; saw_empty = false; has_slot_hole = false })

-- One pass of the compaction: the slots that have a player, or those that have none.
unfoldable pub pass : Bool → List Slot → List Slot
pass want_player [] = []
pass want_player (s ∷ ss) =
    let later : List Slot = pass want_player ss in
    if (if has_player s then want_player else not want_player) then s ∷ later else later

-- Both passes, the players first.
unfoldable pub compacted : List Slot → List Slot
compacted slots = pass true slots ++ pass false slots

-- The function once the memory has been read and `result` is not 0.
unfoldable pub repair : PartyInfo → PartyInfo
repair info =
    let c : Scan = scan info.slots in
    let count_repair : Bool = not (int_eq info.count (pos c.valid_count)) in
    if not c.has_slot_hole && not count_repair then info else record info {
      slots = if c.has_slot_hole then compacted info.slots else info.slots;
      count = if count_repair then pos c.valid_count else info.count;
    }

-- `old_count < 0 || old_count > kObservedPartyMemberSlots`.
abbrev pub is_count_bad : ℤ → Bool
is_count_bad (pos n) = ltb party_slots n
is_count_bad (negsuc n) = true

-- `NormalizePartyMemberInfoAfterRemove`: `none` is a null pointer.
unfoldable pub normalize_after_remove : Option PartyInfo → ℕ → Option PartyInfo
normalize_after_remove none result = none
normalize_after_remove (some info) result =
    if result == 0
    then some info
    else if is_count_bad info.count
    then some info
    else some (repair info)
