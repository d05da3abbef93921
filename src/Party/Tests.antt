-- ===== src/Party/Tests.antt =====
-- Runs of the party compaction, and instances of its theorems.
use revenant_fix.Prelude.{ℕ, ◌≤◌, ◌⊎◌, ◌≡◌, ◌≢◌, refl, true, some, pos, negsuc, [], ◌∷◌, length}
use revenant_fix.Party.{
  Slot, PartyInfo, scan_from, scan, pass, compacted, repair, normalize_after_remove,
}
use revenant_fix.Party.Compact.{IsOutside, normalize_lem}

program : Unit {0}
unfolding scan_from scan pass compacted repair normalize_after_remove
program = tt

abbrev player : ℕ → Slot
player n = record { player = pos n; rest = [] }

abbrev empty : Slot
empty = record { player = negsuc 0; rest = [] }

-- The second of three players has left, and the count is stale.
abbrev info : PartyInfo
info = record {
  count = pos 3;
  native_count_1c = pos 3;
  native_count_20 = pos 3;
  slots = player 1 ∷ empty ∷ player 3 ∷ empty ∷ empty ∷ empty ∷ [];
}

run_normalize :
    normalize_after_remove (some info) 1
    ≡ some (record info {
      count = pos 2;
      slots = player 1 ∷ player 3 ∷ empty ∷ empty ∷ empty ∷ empty ∷ [];
    })
unfolding program
run_normalize = refl

abbrev result : ℕ
result = 1

normalize_lem_example :
    (((result ≡ 0) ⊎ IsOutside info.count)
      × (normalize_after_remove (some info) result ≡ some info))
    ⊎ ((result ≢ 0)
        × ((n : ℕ) × (info.count ≡ pos n) × (n ≤ 6))
        × (normalize_after_remove (some info) result
            ≡ some (record info {
              slots = compacted info.slots;
              count = pos (length (pass true info.slots));
            })))
normalize_lem_example = normalize_lem info result
