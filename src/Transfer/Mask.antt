-- ===== src/Transfer/Mask.antt =====
-- The masks of received chunks, of which there are three at most.
use revenant_fix.Prelude.{
  ℕ, zero, suc, ◌-◌, ◌^◌, ◌≤◌, ◌<◌, ◌⊎◌, ◌≡◌, refl, true, ◌==◌, if◌then◌else◌, set_bit, has_bit,
  arith, inl, inr,
}
use revenant_fix.Transfer.Receive.{expected_mask}

pub has_bit-set_bit :
    (m i k : ℕ) → i < 3 → k < 3 → has_bit (set_bit m i) k ≡ true → (k ≡ i) ⊎ (has_bit m k ≡ true)
has_bit-set_bit m zero zero a b h = inl refl
has_bit-set_bit m (suc zero) (suc zero) a b h = inl refl
has_bit-set_bit m (suc (suc zero)) (suc (suc zero)) a b h = inl refl
has_bit-set_bit m zero (suc zero) a b h = inr (ground arith)
has_bit-set_bit m zero (suc (suc zero)) a b h = inr (ground arith)
has_bit-set_bit m (suc zero) zero a b h = inr (ground arith)
has_bit-set_bit m (suc zero) (suc (suc zero)) a b h = inr (ground arith)
has_bit-set_bit m (suc (suc zero)) zero a b h = inr (ground arith)
has_bit-set_bit m (suc (suc zero)) (suc zero) a b h = inr (ground arith)
has_bit-set_bit m (suc (suc (suc i))) k a b h = absurd (omega arith)
has_bit-set_bit m i (suc (suc (suc k))) a b h = absurd (omega arith)

pub full_mask : (n k : ℕ) → n ≤ 3 → k < n → has_bit (2 ^ n - 1) k ≡ true
full_mask zero k h lt = absurd (omega arith)
full_mask (suc zero) zero h lt = refl
full_mask (suc zero) (suc k) h lt = absurd (omega arith)
full_mask (suc (suc zero)) zero h lt = refl
full_mask (suc (suc zero)) (suc zero) h lt = refl
full_mask (suc (suc zero)) (suc (suc k)) h lt = absurd (omega arith)
full_mask (suc (suc (suc zero))) zero h lt = refl
full_mask (suc (suc (suc zero))) (suc zero) h lt = refl
full_mask (suc (suc (suc zero))) (suc (suc zero)) h lt = refl
full_mask (suc (suc (suc zero))) (suc (suc (suc k))) h lt = absurd (omega arith)
full_mask (suc (suc (suc (suc n)))) k h lt = absurd (omega arith)

pub expected_mask_small : (n : ℕ) → n ≤ 3 → expected_mask n ≡ 2 ^ n - 1
expected_mask_small n h = ground arith

pub set_bit-bounds : (m i n : ℕ) → i < n → n ≤ 3 → m < 2 ^ n → set_bit m i < 2 ^ n
set_bit-bounds m i zero a b c = absurd (omega arith)
set_bit-bounds m zero (suc zero) a b c = ground arith
set_bit-bounds m (suc i) (suc zero) a b c = absurd (omega arith)
set_bit-bounds m zero (suc (suc zero)) a b c = ground arith
set_bit-bounds m (suc zero) (suc (suc zero)) a b c = ground arith
set_bit-bounds m (suc (suc i)) (suc (suc zero)) a b c = absurd (omega arith)
set_bit-bounds m zero (suc (suc (suc zero))) a b c = ground arith
set_bit-bounds m (suc zero) (suc (suc (suc zero))) a b c = ground arith
set_bit-bounds m (suc (suc zero)) (suc (suc (suc zero))) a b c = ground arith
set_bit-bounds m (suc (suc (suc i))) (suc (suc (suc zero))) a b c = absurd (omega arith)
set_bit-bounds m i (suc (suc (suc (suc n)))) a b c = absurd (omega arith)

pub set_bit-bit :
    (m i k : ℕ) → i < 3 → k < 3 → has_bit (set_bit m i) k ≡ (if i == k then true else has_bit m k)
set_bit-bit m zero zero a b = ground arith
set_bit-bit m zero (suc zero) a b = ground arith
set_bit-bit m zero (suc (suc zero)) a b = ground arith
set_bit-bit m (suc zero) zero a b = ground arith
set_bit-bit m (suc zero) (suc zero) a b = ground arith
set_bit-bit m (suc zero) (suc (suc zero)) a b = ground arith
set_bit-bit m (suc (suc zero)) zero a b = ground arith
set_bit-bit m (suc (suc zero)) (suc zero) a b = ground arith
set_bit-bit m (suc (suc zero)) (suc (suc zero)) a b = ground arith
set_bit-bit m (suc (suc (suc i))) k a b = absurd (omega arith)
set_bit-bit m i (suc (suc (suc k))) a b = absurd (omega arith)

-- A mask whose bits are all set is the expected one.
pub all_bits :
    (m n : ℕ) → n ≤ 3 → m < 2 ^ n → ((k : ℕ) → k < n → has_bit m k ≡ true) → m ≡ 2 ^ n - 1
all_bits m zero a b h = omega arith
all_bits m (suc zero) a b h = let b0 = h 0 (omega arith) in ground arith
all_bits m (suc (suc zero)) a b h =
    let b0 = h 0 (omega arith) in let b1 = h 1 (omega arith) in ground arith
all_bits m (suc (suc (suc zero))) a b h =
    let b0 = h 0 (omega arith) in
    let b1 = h 1 (omega arith) in let b2 = h 2 (omega arith) in ground arith
all_bits m (suc (suc (suc (suc n)))) a b h = absurd (omega arith)
