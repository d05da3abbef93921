-- ===== src/Transfer/Complete.antt =====
-- All chunks of a delivery complete it: from a table without assemblies, in any order, as long as the
-- assembly does not expire between two of them.
use revenant_fix.Prelude.{
  ℕ, zero, suc, ◌-◌, ◌^◌, ◌≤◌, ◌<◌, ◌≡◌, ◌≢◌, refl, sym, ap, ◌∙◌, true, false, ◌||◌, not, is_some,
  ℕ_discrete, none, some, List, [], ◌∷◌, ◌++◌, ◌==◌, length, set_bit, has_bit, count, arith,
  Bool-cases, Option-cases, inl, inr,
}
use mathlib.Core.Bool.{false≢true}
use revenant_fix.Transfer.{Assembly}
use revenant_fix.Transfer.Send.{Delivery, chunk_at, is_sendable}
use revenant_fix.Transfer.Receive.{is_match, new_assembly, add_chunk, assemble, expected_mask}
use revenant_fix.Transfer.Assemble.{
  chunk_count_of, AllFair, assemble_all, no_assemblies, assemble-send, count-bounds,
}
use revenant_fix.Transfer.Mask.{
  full_mask, expected_mask_small, set_bit-bounds, set_bit-bit, all_bits,
}
use revenant_fix.Transfer.Match.{new-match}
use revenant_fix.Transfer.Step.{
  one, parts, Prompt, AllPrompt, outcome, assemble_first, assemble_next, is_chunk, AllBelow,
}

-- The chunks that are still missing arrive, `i` excepted.
abbrev Covered : ℕ → ℕ → ℕ → List (ℕ × ℕ) → Type 0
Covered mask n i order =
    (k : ℕ) → k < n → k ≢ i → (has_bit mask k || not (count (is_chunk k) order == 0)) ≡ true

module _ (sender : ℕ) (d : Delivery) (i : ℕ) (small : chunk_count_of d ≤ 3)
    (inside : i < chunk_count_of d) where
  last_outcome :
      (now : ℕ) (a : Assembly)
      → a.received_chunk_mask < 2 ^ chunk_count_of d
      → Covered a.received_chunk_mask (chunk_count_of d) i []
      → is_some (outcome now (chunk_at d i) a).0 ≡ true
  unfolding chunk_at add_chunk count
  last_outcome now a bound covered =
      let full : set_bit a.received_chunk_mask i ≡ 2 ^ chunk_count_of d - 1 =
        all_bits (set_bit a.received_chunk_mask i) (chunk_count_of d) small
          (set_bit-bounds a.received_chunk_mask i (chunk_count_of d) inside small bound)
          (λ k lt. every k lt) in
      let done : (set_bit a.received_chunk_mask i == expected_mask (chunk_count_of d)) ≡ true =
        rw (full, expected_mask_small (chunk_count_of d) small) (ground arith) in
      rw done refl
    where
      every : (k : ℕ) → k < chunk_count_of d → has_bit (set_bit a.received_chunk_mask i) k ≡ true
      every k lt = elim (ℕ_discrete k i) [
        | yes e ↦ ground (arith, set_bit-bit a.received_chunk_mask i k)
        | no ne ↦ ground (arith, set_bit-bit a.received_chunk_mask i k, covered k lt ne)
      ]

  next_outcome :
      (j now : ℕ) (a : Assembly)
      → j < chunk_count_of d
      → j ≢ i
      → has_bit a.received_chunk_mask i ≡ false
      → (outcome now (chunk_at d j) a ≡ (none, one (add_chunk now (chunk_at d j) a)))
        × (has_bit (set_bit a.received_chunk_mask j) i ≡ false)
  unfolding chunk_at add_chunk
  next_outcome j now a lt ne clear =
      let still : has_bit (set_bit a.received_chunk_mask j) i ≡ false =
        ground (arith, set_bit-bit a.received_chunk_mask j i) in
      let partial : (set_bit a.received_chunk_mask j == expected_mask (chunk_count_of d)) ≡ false =
        elim (Bool-cases (set_bit a.received_chunk_mask j == expected_mask (chunk_count_of d))) [
          | inr f ↦ f
          | inl t ↦
              let e : set_bit a.received_chunk_mask j ≡ 2 ^ chunk_count_of d - 1 =
                ground (arith, expected_mask_small (chunk_count_of d) small) in
              absurd (
                false≢true (
                  sym still
                  ∙ ap (λ m. has_bit m i) e
                  ∙ full_mask (chunk_count_of d) i small inside))
        ] in
      (rw partial refl, still)

  same_match :
      (j : ℕ) (a : Assembly)
      → is_match a sender (chunk_at d 0) ≡ true
      → is_match a sender (chunk_at d j) ≡ true
  unfolding is_match chunk_at
  same_match j a h = h

  own_match : (j : ℕ) → is_match (new_assembly sender (chunk_at d j)) sender (chunk_at d 0) ≡ true
  unfolding is_match chunk_at
  own_match j = new-match sender (chunk_at d j)

  same_match_add :
      (j now : ℕ) (a : Assembly)
      → is_match a sender (chunk_at d 0) ≡ true
      → is_match (add_chunk now (chunk_at d j) a) sender (chunk_at d 0) ≡ true
  unfolding is_match chunk_at add_chunk
  same_match_add j now a h = h

  add_mask :
      (j now : ℕ) (a : Assembly)
      → (add_chunk now (chunk_at d j) a).received_chunk_mask ≡ set_bit a.received_chunk_mask j
  unfolding chunk_at add_chunk
  add_mask j now a = refl

  add_tick : (j now : ℕ) (a : Assembly) → (add_chunk now (chunk_at d j) a).received_tick_ms ≡ now
  unfolding add_chunk
  add_tick j now a = refl

  covered_step :
      (m j t k : ℕ) (rest : List (ℕ × ℕ))
      → j < chunk_count_of d
      → k < chunk_count_of d
      → (has_bit m k || not (count (is_chunk k) ((j, t) ∷ rest) == 0)) ≡ true
      → (has_bit (set_bit m j) k || not (count (is_chunk k) rest == 0)) ≡ true
  unfolding count
  covered_step m j t k rest below lt h =
      let e = set_bit-bit m j k (omega (arith, small)) (omega (arith, small)) in
      elim (Bool-cases (j == k)) [
        | inl same ↦ rw (e, same) refl
        | inr other ↦ let seen = rw other at h in rw (e, other) (ground arith)
      ]

  complete_rest :
      (order : List (ℕ × ℕ)) (now : ℕ) (a : Assembly)
      → is_match a sender (chunk_at d 0) ≡ true
      → a.received_chunk_mask < 2 ^ chunk_count_of d
      → has_bit a.received_chunk_mask i ≡ false
      → Covered a.received_chunk_mask (chunk_count_of d) i order
      → AllBelow (chunk_count_of d) order
      → count (is_chunk i) order ≡ 0
      → Prompt a.received_tick_ms (order ++ ((i, now) ∷ []))
      → is_some (assemble sender (chunk_at d i) now (assemble_all (parts sender d order) (one a))).0
        ≡ true
  unfolding count
  complete_rest [] now a match bound clear covered below new prompt =
      rw (assemble_next sender (chunk_at d i) now a (same_match i a match) prompt.0)
        (last_outcome now a bound covered)
  complete_rest ((j, t) ∷ rest) now a match bound clear covered below new prompt =
      let (out, still) = next_outcome j t a below.0 (ground arith) clear in
      ap
        (λ x.
          is_some (assemble sender (chunk_at d i) now (assemble_all (parts sender d rest) x.1)).0)
        (assemble_next sender (chunk_at d j) t a (same_match j a match) prompt.0 ∙ out)
      ∙ (complete_rest rest now (add_chunk t (chunk_at d j) a) (same_match_add j t a match)
          (rw (add_mask j t a)
            (set_bit-bounds a.received_chunk_mask j (chunk_count_of d) below.0 small bound))
          (rw (add_mask j t a) still)
          (λ k lt ne.
            rw (add_mask j t a)
              (covered_step a.received_chunk_mask j t k rest below.0 lt (covered k lt ne)))
          below.1 (ground arith) (rw (add_tick j t a) prompt.1))

  new_mask : (j : ℕ) → (new_assembly sender (chunk_at d j)).received_chunk_mask ≡ 0
  unfolding new_assembly
  new_mask j = refl

  power_pos : 0 < 2 ^ chunk_count_of d
  power_pos = pos_of (chunk_count_of d) small
    where
      pos_of : (n : ℕ) → n ≤ 3 → 0 < 2 ^ n
      pos_of zero h = omega arith
      pos_of (suc zero) h = omega arith
      pos_of (suc (suc zero)) h = omega arith
      pos_of (suc (suc (suc zero))) h = omega arith
      pos_of (suc (suc (suc (suc n)))) h = absurd (omega arith)

  no_bit : has_bit 0 i ≡ false
  no_bit = none_set i (omega (arith, small, inside))
    where
      none_set : (k : ℕ) → k < 3 → has_bit 0 k ≡ false
      none_set zero lt = refl
      none_set (suc zero) lt = refl
      none_set (suc (suc zero)) lt = refl
      none_set (suc (suc (suc k))) lt = absurd (omega arith)

  -- The first arrival starts the assembly.
  complete_all :
      (order : List (ℕ × ℕ)) (now : ℕ)
      → Covered 0 (chunk_count_of d) i order
      → AllBelow (chunk_count_of d) order
      → count (is_chunk i) order ≡ 0
      → AllPrompt (order ++ ((i, now) ∷ []))
      → is_some
          (assemble sender (chunk_at d i) now (assemble_all (parts sender d order) no_assemblies)).0
        ≡ true
  unfolding count
  complete_all [] now covered below new prompt = rw (assemble_first sender (chunk_at d i) now) (
      last_outcome now (new_assembly sender (chunk_at d i)) (rw (new_mask i) power_pos)
        (rw (new_mask i) covered))
  complete_all ((j, t) ∷ rest) now covered below new prompt =
      let a : Assembly = new_assembly sender (chunk_at d j) in
      let (out, still) = next_outcome j t a below.0 (ground arith) (rw (new_mask j) no_bit) in
      ap
        (λ x.
          is_some (assemble sender (chunk_at d i) now (assemble_all (parts sender d rest) x.1)).0)
        (assemble_first sender (chunk_at d j) t ∙ out)
      ∙ (complete_rest rest now (add_chunk t (chunk_at d j) a) (same_match_add j t a (own_match j))
          (rw (add_mask j t a, new_mask j)
            (set_bit-bounds 0 j (chunk_count_of d) below.0 small power_pos))
          (rw (add_mask j t a) still)
          (λ k lt ne.
            rw (add_mask j t a, new_mask j)
              (covered_step 0 j t k rest below.0 lt (covered k lt ne)))
          below.1 (ground arith) (rw (add_tick j t a) prompt))

-- The chunks of a delivery, in any order and also repeatedly, each less than 30 seconds after the one
-- before: when the last one that was missing arrives, it yields the payload.
pub assemble_all-completes :
    (sender : ℕ) (d : Delivery) (order : List (ℕ × ℕ)) (i now : ℕ)
    → is_sendable d ≡ true
    → d.key.payload_size ≡ length d.payload
    → i < chunk_count_of d
    → AllBelow (chunk_count_of d) order
    → count (is_chunk i) order ≡ 0
    → ((k : ℕ) → k < chunk_count_of d → k ≢ i → 1 ≤ count (is_chunk k) order)
    → AllPrompt (order ++ ((i, now) ∷ []))
    → (assemble sender (chunk_at d i) now (assemble_all (parts sender d order) no_assemblies)).0
      ≡ some d.payload
assemble_all-completes sender d order i now sendable exact inside below new all prompt =
    let small = (count-bounds sender d sendable exact).0 in
    let done =
      complete_all sender d i small inside order now (λ k lt ne. ground (arith, all k lt ne)) below
        new prompt in
    elim (Option-cases
      (assemble sender (chunk_at d i) now (assemble_all (parts sender d order) no_assemblies)).0) [
        | inl e ↦ absurd (false≢true (rw e at done))
        | inr (bytes, e) ↦
            e
            ∙ ap some (
                assemble-send sender d (parts sender d order) i now bytes sendable exact
                  (fair order below) inside e)
      ]
  where
    fair :
        (order : List (ℕ × ℕ))
        → AllBelow (chunk_count_of d) order
        → AllFair sender d (parts sender d order)
    fair [] below = tt
    fair (x ∷ rest) below = (inr (x.0, refl, refl, below.0), fair rest below.1)
