-- ===== src/Party/Count.antt =====
-- What the first loop computes.
use revenant_fix.Prelude.{
  ◌+◌, ◌≡◌, refl, true, false, ◌||◌, List, [], ◌∷◌, length, arith, Bool-cases, inl, inr,
}
use revenant_fix.Party.{Slot, has_player, Scan, scan_from, scan, pass}

-- No slot with a player stands behind one without.
abbrev pub IsCompact : List Slot → Type 0
IsCompact [] = Unit {0}
IsCompact (s ∷ ss) = (has_player s ≡ false → length (pass true ss) ≡ 0) × IsCompact ss

scan_from-count :
    (c : Scan) (ss : List Slot)
    → (scan_from c ss).valid_count ≡ c.valid_count + length (pass true ss)
unfolding scan_from pass
scan_from-count c [] = ground arith
scan_from-count c (s ∷ ss) = ground (
  arith,
  scan_from-count
      (record c { valid_count = c.valid_count + 1; has_slot_hole = c.has_slot_hole || c.saw_empty })
      ss,
  scan_from-count (record c { saw_empty = true }) ss,
)

-- The count is the number of slots that have a player.
pub scan-count : (ss : List Slot) → (scan ss).valid_count ≡ length (pass true ss)
unfolding scan
scan-count ss = omega (
  arith,
  scan_from-count (record { valid_count = 0; saw_empty = false; has_slot_hole = false }) ss,
)

-- With an empty slot behind it the loop finds a hole exactly if a player is left.
scan_from-saw :
    (c : Scan) (ss : List Slot)
    → c.saw_empty ≡ true
    → (scan_from c ss).has_slot_hole ≡ false
    → (length (pass true ss) ≡ 0) × (c.has_slot_hole ≡ false)
unfolding scan_from pass
scan_from-saw c [] h k = ground arith
scan_from-saw c (s ∷ ss) h k = ground (
  arith,
  scan_from-saw
      (record c { valid_count = c.valid_count + 1; has_slot_hole = c.has_slot_hole || c.saw_empty })
      ss,
  scan_from-saw (record c { saw_empty = true }) ss,
)

IsCompact-no_players : (ss : List Slot) → length (pass true ss) ≡ 0 → IsCompact ss
unfolding pass
IsCompact-no_players [] h = tt
IsCompact-no_players (s ∷ ss) h = (λ e. ground arith, IsCompact-no_players ss (ground arith))

scan_from-IsCompact :
    (c : Scan) (ss : List Slot) → (scan_from c ss).has_slot_hole ≡ false → IsCompact ss
unfolding scan_from pass
scan_from-IsCompact c [] h = tt
scan_from-IsCompact c (s ∷ ss) h = elim (Bool-cases (has_player s)) [
  | inl e ↦ (
    λ f. cc,
    scan_from-IsCompact
        (record c {
          valid_count = c.valid_count + 1;
          has_slot_hole = c.has_slot_hole || c.saw_empty;
        })
        ss (rw (e, scan_from) at h),
  )
  | inr e ↦
      let none_left =
        (scan_from-saw (record c { saw_empty = true }) ss refl (rw (e, scan_from) at h)).0 in
      (λ f. none_left, IsCompact-no_players ss none_left)
]

-- Where the loop finds no hole there is none.
pub scan-IsCompact : (ss : List Slot) → (scan ss).has_slot_hole ≡ false → IsCompact ss
unfolding scan
scan-IsCompact ss h =
    scan_from-IsCompact (record { valid_count = 0; saw_empty = false; has_slot_hole = false }) ss h
