-- ===== src/Prelude/Bits.antt =====
-- Single bits of a mask, in the form that linear arithmetic reads at a numeral `k`.
use Prim.Native.Nat.{ℕ, ◌+◌, ◌-◌, ◌*◌, ◌/◌, ◌%◌, ◌^◌}
use mathlib.Core.Bool.{Bool}
use revenant_fix.Prelude.Tests.{◌==◌}

-- `mask & (1 << k)`.
abbrev pub keep_bit : ℕ → ℕ → ℕ
keep_bit mask k = mask / 2 ^ k % 2 * 2 ^ k

-- `(mask & (1 << k)) != 0`.
abbrev pub has_bit : ℕ → ℕ → Bool
has_bit mask k = mask / 2 ^ k % 2 == 1

-- `mask & ~(1 << k)`.
abbrev pub clear_bit : ℕ → ℕ → ℕ
clear_bit mask k = mask - keep_bit mask k

-- `mask | (1 << k)`.
abbrev pub set_bit : ℕ → ℕ → ℕ
set_bit mask k = clear_bit mask k + 2 ^ k
