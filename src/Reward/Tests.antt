-- ===== src/Reward/Tests.antt =====
-- Runs of the ring of discards, and instances of its theorems.
use revenant_fix.Prelude.{◌≡◌, refl, true, false, [], ◌∷◌, arith, count, find_index}
use revenant_fix.Reward.{blank, Ring, remember, has_recent, forget_from, forget}
use revenant_fix.Reward.Recent.{IsValid}
use revenant_fix.Reward.Survive.{remembers, has_recent-remembers}

program : Unit {0}
unfolding remember has_recent forget_from forget find_index count
program = tt

abbrev ring : Ring
ring = record {
  requests =
      record { reward_id = 40; tick = 1000 }
      ∷ blank
      ∷ blank
      ∷ blank
      ∷ blank
      ∷ blank
      ∷ blank
      ∷ blank
      ∷ blank
      ∷ blank
      ∷ blank
      ∷ blank
      ∷ blank
      ∷ blank
      ∷ blank
      ∷ blank
      ∷ [];
  cursor = 1;
}

run_recent : has_recent (remember ring 41 2000) 41 32_000 ≡ true
unfolding program
run_recent = refl

run_expired : has_recent (remember ring 41 2000) 41 32_001 ≡ false
unfolding program
run_expired = refl

run_forget : has_recent (forget (remember ring 41 2000) 41) 41 2000 ≡ false
unfolding program
run_forget = refl

ring-IsValid : IsValid ring
unfolding count
ring-IsValid = record { size = refl; once = λ q h. ground arith }

has_recent-remembers_example :
    has_recent (remembers (remember ring 41 2000) ((42, 2100) ∷ (40, 2200) ∷ [])) 41 3000 ≡ true
unfolding find_index
has_recent-remembers_example =
    has_recent-remembers ring 41 2000 3000 ((42, 2100) ∷ (40, 2200) ∷ []) refl refl (omega arith)
      (omega arith) (omega arith) (omega arith) (omega arith) (omega arith)
