-- ===== src/Record/Inv.antt =====
-- The invariant of the cache: the sizes of its tables, and one entry at most for a player.
use revenant_fix.Prelude.{ℕ, ◌+◌, ◌≤◌, ◌≡◌, ◌≢◌, length, count}
use revenant_fix.Record.Cache.{Cache, has, active_slots, inactive_slots}

pub record IsValid (c : Cache) : Type 0 where
  pub active_size : length c.active ≡ active_slots
  pub inactive_size : length c.inactive ≡ inactive_slots
  pub once : (q : ℕ) → q ≢ 0 → count (has q) c.active + count (has q) c.inactive ≤ 1
