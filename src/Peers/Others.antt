-- ===== src/Peers/Others.antt =====
-- What the calls of the peer table leave alone: the other peers, and that none stands twice.
use revenant_fix.Prelude.{
  ℕ, suc, ◌≤◌, ◌<◌, ◌≡◌, refl, ap, ◌≢◌, Bool, true, false, not, List, [], ◌∷◌, ◌==◌, length, arith,
  count, find_index, Bool-cases, if◌then◌else◌, inl, inr, length-set, Option-cases,
  is_some-find_index, ℕ_discrete,
}
use revenant_fix.Peers.{
  Peers, is, is_ignored, insert_peer, erase_peer, remove_peer, is_active, set_active,
}
use revenant_fix.Peers.Active.{
  not_ignored, count-erase_self, count-erase_ne, count-insert_self, count-insert_ne,
  count-insert-le,
}

-- No peer stands twice in the active table.
pub record IsValid (s : Peers) : Type 0 where
  pub size : length s.active ≡ 8
  pub once : (q : ℕ) → q ≢ 0 → count (is q) s.active ≤ 1

-- The answer for a peer is a count in the table.
pub is_active-count :
    (s : Peers) (q : ℕ)
    → is_active s q ≡ (if is_ignored s q then false else not (count (is q) s.active == 0))
unfolding is_active
is_active-count s q = rw (is_some-find_index (is q) s.active) refl

local-set_active :
    (s : Peers) (x : ℕ) (active : Bool)
    → (set_active s x active).0.local_steam_id ≡ s.local_steam_id
unfolding set_active
local-set_active s x active = ground arith

count-set_active_ne :
    (s : Peers) (x q : ℕ) (active : Bool)
    → 0 < length s.active
    → q ≢ x
    → (insert_peer s.active x).displaced_peer ≢ q
    → q ≢ 0
    → count (is q) (set_active s x active).0.active ≡ count (is q) s.active
unfolding set_active remove_peer
count-set_active_ne s x q true k h d z = elim (Bool-cases (is_ignored s x)) [
  | inl e ↦ rw e refl
  | inr e ↦ rw e (count-insert_ne x q s.active h z k d)
]
count-set_active_ne s x q false k h d z = elim (Bool-cases (is_ignored s x)) [
  | inl e ↦ rw e refl
  | inr e ↦ rw e (count-erase_ne x q s.active h z)
]

-- A call for one peer does not change the answer for another, unless the table is full and the
-- call takes place 0 from that other peer.
pub is_active-set_active_ne :
    (s : Peers) (x q : ℕ) (active : Bool)
    → 0 < length s.active
    → q ≢ x
    → (insert_peer s.active x).displaced_peer ≢ q
    → is_active (set_active s x active).0 q ≡ is_active s q
is_active-set_active_ne s x q active k h d = ground (
  arith,
  is_active-count (set_active s x active).0 q,
  is_active-count s q,
  local-set_active s x active,
  count-set_active_ne s x q active k h d,
)

length-insert : (xs : List ℕ) (x : ℕ) → length (insert_peer xs x).table ≡ length xs
unfolding insert_peer
length-insert xs x = elim (Option-cases (find_index (is x) xs)) [
  | inr (i, e) ↦ rw (e, insert_peer) refl
  | inl e ↦ elim (Option-cases (find_index (is 0) xs)) [
    | inr (i, f) ↦ rw (e, insert_peer, f, insert_peer) (length-set xs i x)
    | inl f ↦ rw (e, insert_peer, f, insert_peer) (length-set xs 0 x)
  ]
]

length-erase : (xs : List ℕ) (x : ℕ) → length (erase_peer xs x) ≡ length xs
unfolding erase_peer
length-erase [] x = refl
length-erase (p ∷ ps) x = ap suc (length-erase ps x)

count-set_active-le :
    (s : Peers) (x q : ℕ) (active : Bool)
    → IsValid s
    → q ≢ 0
    → count (is q) (set_active s x active).0.active ≤ 1
unfolding set_active remove_peer
count-set_active-le s x q true v z = elim (Bool-cases (is_ignored s x)) [
  | inl e ↦ rw e (v.once q z)
  | inr e ↦ rw e (elim (ℕ_discrete q x) [
    | yes p ↦ rw p (
        (count-insert_self x s.active (not_ignored s x e) (omega (arith, v.size))).1
          (v.once x (not_ignored s x e)))
    | no p ↦ omega (arith, v.once q z, count-insert-le x q s.active p (omega (arith, v.size)))
  ])
]
count-set_active-le s x q false v z = elim (Bool-cases (is_ignored s x)) [
  | inl e ↦ rw e (v.once q z)
  | inr e ↦ rw e (elim (ℕ_discrete q x) [
    | yes p ↦ rw (p, count-erase_self x s.active (not_ignored s x e)) (omega arith)
    | no p ↦ rw (count-erase_ne x q s.active p z) (v.once q z)
  ])
]

-- `SetNrscPeerActive` keeps the table's size, and no peer comes to stand in it twice.
pub set_active-IsValid :
    (s : Peers) (x : ℕ) (active : Bool) → IsValid s → IsValid (set_active s x active).0
unfolding set_active remove_peer
set_active-IsValid s x active v = record {
  size = ground (arith, length-insert s.active x, length-erase s.active x, v.size);
  once = λ q z. count-set_active-le s x q active v z;
}
