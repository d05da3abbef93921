-- ===== src/Party/Compact.antt =====
-- `NormalizePartyMemberInfoAfterRemove` compacts the slots and corrects the count.
use mathlib.Core.Bool.{false≢true}
use mathlib.Core.List.Perm
use mathlib.Core.List.{Perm, perm_middle}
use revenant_fix.Prelude.{
  ℕ, suc, ◌≤◌, ◌<◌, ◌⊎◌, ◌≡◌, ◌≢◌, refl, sym, ap, true, false, some, pos, int_eq-eq, List, [], ◌∷◌,
  ◌++◌, length, ℤ, negsuc, ltb, ℕ_discrete, arith, Bool-cases, inl, inr,
}
use revenant_fix.Party.{
  Slot, PartyInfo, has_player, scan, pass, compacted, repair, is_count_bad, normalize_after_remove,
}
use revenant_fix.Party.Count.{IsCompact, scan-count, scan-IsCompact}

empty_of_length {ℓ} : {A : Type ℓ} (xs : List A) → length xs ≡ 0 → xs ≡ []
empty_of_length [] h = refl
empty_of_length (x ∷ xs) h = absurd (omega arith)

-- Slots without a hole are not changed by the two passes.
compacted-id : (ss : List Slot) → IsCompact ss → compacted ss ≡ ss
unfolding compacted pass
compacted-id [] h = refl
compacted-id (s ∷ ss) (first, rest) = elim (Bool-cases (has_player s)) [
  | inl e ↦ rw (e) (ap (◌∷◌ s) (compacted-id ss rest))
  | inr e ↦
      let no_players : pass true ss ≡ [] = empty_of_length (pass true ss) (first e) in
      let same : pass false ss ≡ ss = rw no_players at (compacted-id ss rest) in
      rw (e, no_players, same) refl
]

repair_lem :
    (info : PartyInfo)
    → repair info
      ≡ record info { slots = compacted info.slots; count = pos (length (pass true info.slots)) }
unfolding repair
repair_lem info =
    let exact = int_eq-eq info.count (pos (scan info.slots).valid_count) in
    elim (Bool-cases (scan info.slots).has_slot_hole) [
      | inl e ↦ ground (arith, scan-count info.slots, exact)
      | inr e ↦
          let same = compacted-id info.slots (scan-IsCompact info.slots e) in
          ground (arith, scan-count info.slots, exact)
    ]

-- A count that is negative or above 6.
abbrev pub IsOutside : ℤ → Type 0
IsOutside z = (n : ℕ) × (((z ≡ pos n) × (6 < n)) ⊎ (z ≡ negsuc n))

count-cases :
    (z : ℤ)
    → ((is_count_bad z ≡ true) × IsOutside z)
      ⊎ ((is_count_bad z ≡ false) × ((n : ℕ) × (z ≡ pos n) × (n ≤ 6)))
count-cases (pos n) = elim (Bool-cases (ltb 6 n)) [
  | inl e ↦ inl (e, (n, inl (refl, ground arith)))
  | inr e ↦ inr (e, (n, refl, ground arith))
]
count-cases (negsuc n) = inl (refl, (n, inr refl))

-- A call does nothing where the result is 0 or the count is negative or above 6. Everywhere else it
-- leaves the slots of the two passes, the players in their order before the empty slots, and the
-- number of the players as the count; nothing else changes.
pub normalize_lem :
    (info : PartyInfo) (result : ℕ)
    → (((result ≡ 0) ⊎ IsOutside info.count)
        × (normalize_after_remove (some info) result ≡ some info))
      ⊎ ((result ≢ 0)
          × ((n : ℕ) × (info.count ≡ pos n) × (n ≤ 6))
          × (normalize_after_remove (some info) result
              ≡ some (record info {
                slots = compacted info.slots;
                count = pos (length (pass true info.slots));
              })))
unfolding normalize_after_remove
normalize_lem info result = elim (ℕ_discrete result 0) [
  | yes z ↦ inl (inl z, ground (arith, z))
  | no z ↦ elim (count-cases info.count) [
    | inl (bad, out) ↦ inl (inr out, ground (arith, z, bad))
    | inr (good, within) ↦ inr (z, within, ground (arith, z, good, repair_lem info))
  ]
]

-- The two passes lose no slot and invent none.
pub compacted-perm : (ss : List Slot) → Perm (compacted ss) ss
unfolding compacted pass
compacted-perm [] = Perm.refl []
compacted-perm (s ∷ ss) = elim (Bool-cases (has_player s)) [
  | inl e ↦ rw e (Perm.cons s (compacted-perm ss))
  | inr e ↦
      rw e
        (Perm.trans (perm_middle (pass true ss) (pass false ss)) (Perm.cons s (compacted-perm ss)))
]

pass-IsCompact :
    (ss ts : List Slot)
    → length (pass true ts) ≡ 0
    → IsCompact ts
    → IsCompact (pass true ss ++ ts)
      × (length (pass true (pass true ss ++ ts)) ≡ length (pass true ss))
unfolding pass
pass-IsCompact [] ts h k = (k, h)
pass-IsCompact (s ∷ ss) ts h k = elim (Bool-cases (has_player s)) [
  | inl e ↦
      let (compact, size) = pass-IsCompact ss ts h k in
      rw (e, e) ((λ f. absurd (false≢true (sym f)), compact), ap suc size)
  | inr e ↦ rw e (pass-IsCompact ss ts h k)
]

pass-nobody :
    (ss : List Slot) → (length (pass true (pass false ss)) ≡ 0) × IsCompact (pass false ss)
unfolding pass
pass-nobody [] = (refl, tt)
pass-nobody (s ∷ ss) = elim (Bool-cases (has_player s)) [
  | inl e ↦ rw e (pass-nobody ss)
  | inr e ↦
      let (none_left, compact) = pass-nobody ss in
      rw (e, e) (none_left, ((λ f. none_left), compact))
]

compact_lem : (ss : List Slot) → IsCompact (compacted ss)
unfolding compacted
compact_lem ss =
    let (none_left, compact) = pass-nobody ss in
    (pass-IsCompact ss (pass false ss) none_left compact).0

-- After the two passes no slot with a player stands behind an empty one, so that a second
-- compaction changes nothing; and the slots are the same, in another order.
pub compacted_lem :
    (ss : List Slot)
    → IsCompact (compacted ss) × (compacted (compacted ss) ≡ compacted ss) × Perm (compacted ss) ss
compacted_lem ss = (compact_lem ss, compacted-id (compacted ss) (compact_lem ss), compacted-perm ss)
