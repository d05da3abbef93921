-- ===== src/Peers/Clear.antt =====
-- `ClearNrscActivePeers`, and a repeated activation.
use revenant_fix.Prelude.{
  ℕ, ◌+◌, ◌≤◌, ◌≡◌, ◌≢◌, refl, true, false, List, [], ◌∷◌, ◌++◌, map, ◌==◌, if◌then◌else◌, length,
  arith, count, find_index, inl, inr, Option-cases,
}
use native.Mathlib.Nat.{zero-add}
use revenant_fix.Peers.{
  Peers, trace_peer_change, clear_native_admission_state, clear_native_admission_for_peer, is,
  guarded, insert_peer, set_active_effects, is_active, set_active, collect_cleared, zeroed,
  clear_active, observed_party_member_slots,
}
use revenant_fix.Peers.Others.{is_active-count}

-- The peers of a table, in its order.
abbrev pub live : List ℕ → List ℕ
live [] = []
live (p ∷ ps) = if p == 0 then live ps else p ∷ live ps

collect_cleared_lem :
    (n : ℕ) (ps : List ℕ)
    → n + length (live ps) ≤ observed_party_member_slots
    → collect_cleared n ps ≡ (n + length (live ps), live ps)
unfolding collect_cleared
collect_cleared_lem n [] h = ground arith
collect_cleared_lem n (p ∷ ps) h =
    ground (arith, collect_cleared_lem n ps, collect_cleared_lem (n + 1) ps)

count-zeroed : (q : ℕ) (ps : List ℕ) → q ≢ 0 → count (is q) (zeroed ps) ≡ 0
unfolding zeroed count
count-zeroed q [] h = refl
count-zeroed q (p ∷ ps) h = ground (arith, count-zeroed q ps h)

-- After `ClearNrscActivePeers` no peer is active. Where at most six were, each of them was traced
-- as lost, then the admission state was cleared, then each one's admission.
pub clear_active_lem :
    (s : Peers) (q : ℕ)
    → length (live s.active) ≤ observed_party_member_slots
    → (is_active (clear_active s).0 q ≡ false)
      × ((clear_active s).1
          ≡ guarded (length (live s.active) == 0) (trace_peer_change 0 false false ∷ [])
            ++ (map (λ p. trace_peer_change p false true) (live s.active)
                ++ (clear_native_admission_state
                    ∷ map clear_native_admission_for_peer (live s.active))))
unfolding clear_active
clear_active_lem s q h = (
  ground (arith, is_active-count (clear_active s).0 q, count-zeroed q s.active),
  rw (collect_cleared_lem 0 s.active (omega arith), zero-add) refl,
)

-- Activating a peer that is active already changes nothing and makes no calls.
pub set_active_again : (s : Peers) (x : ℕ) → is_active s x ≡ true → set_active s x true ≡ (s, [])
unfolding set_active is_active insert_peer set_active_effects
set_active_again s x h = elim (Option-cases (find_index (is x) s.active)) [
  | inl e ↦ ground arith
  | inr (i, e) ↦ ground arith
]
