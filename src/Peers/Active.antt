-- ===== src/Peers/Active.antt =====
-- Activation and deactivation of one peer: what `IsNrscPeerActive` answers afterwards.
use revenant_fix.Prelude.{
  ℕ, ◌≤◌, ◌<◌, ◌≡◌, refl, ◌≢◌, Bool, true, false, List, [], ◌∷◌, length, arith, count,
  count-zero-get, find_index, find_index-none, find_index-some, count-set, count-pos, Option-cases,
  inl, inr, is_some-find_index,
}
use revenant_fix.Peers.{
  Peers, is, is_ignored, insert_peer, erase_peer, remove_peer, is_active, set_active,
}

pub count-erase_self : (x : ℕ) (xs : List ℕ) → x ≢ 0 → count (is x) (erase_peer xs x) ≡ 0
unfolding count erase_peer
count-erase_self x [] h = refl
count-erase_self x (p ∷ ps) h = ground (arith, count-erase_self x ps h)

pub count-erase_ne :
    (x q : ℕ) (xs : List ℕ) → q ≢ x → q ≢ 0 → count (is q) (erase_peer xs x) ≡ count (is q) xs
unfolding count erase_peer
count-erase_ne x q [] h k = refl
count-erase_ne x q (p ∷ ps) h k = ground (arith, count-erase_ne x q ps h k)

-- After the insertion the peer stands in the table, and once if it stood there at most once.
pub count-insert_self :
    (x : ℕ) (xs : List ℕ)
    → x ≢ 0
    → 0 < length xs
    → (1 ≤ count (is x) (insert_peer xs x).table)
      × (count (is x) xs ≤ 1 → count (is x) (insert_peer xs x).table ≤ 1)
unfolding insert_peer
count-insert_self x xs h k = elim (Option-cases (find_index (is x) xs)) [
  | inr (i, e) ↦
      let found = find_index-some (is x) xs 0 i e in
      let many = count-pos (is x) xs i 0 found.0 found.1 in rw (e, insert_peer) (many, λ u. u)
  | inl e ↦ elim (Option-cases (find_index (is 0) xs)) [
    | inr (i, f) ↦
        let free = find_index-some (is 0) xs 0 i f in
        let none_yet = find_index-none (is x) xs e in
        let written = count-set (is x) xs i x 0 free.0 in rw (e, insert_peer, f) (ground arith)
    | inl f ↦
        let none_yet = find_index-none (is x) xs e in
        let other = count-zero-get (is x) xs 0 0 k none_yet in
        let written = count-set (is x) xs 0 x 0 k in rw (e, insert_peer, f) (ground arith)
  ]
]

-- Another peer keeps its places, unless the table is full and it is the one in place 0.
pub count-insert_ne :
    (x q : ℕ) (xs : List ℕ)
    → q ≢ x
    → q ≢ 0
    → 0 < length xs
    → (insert_peer xs x).displaced_peer ≢ q
    → count (is q) (insert_peer xs x).table ≡ count (is q) xs
unfolding insert_peer
count-insert_ne x q xs h k l d = elim (Option-cases (find_index (is x) xs)) [
  | inr (i, e) ↦ rw (e, insert_peer) refl
  | inl e ↦ elim (Option-cases (find_index (is 0) xs)) [
    | inr (i, f) ↦
        let free = find_index-some (is 0) xs 0 i f in
        let written = count-set (is q) xs i x 0 free.0 in rw (e, insert_peer, f) (ground arith)
    | inl f ↦
        let written = count-set (is q) xs 0 x 0 l in
        let kept = rw (e, insert_peer, f) at d in rw (e, insert_peer, f) (ground arith)
  ]
]

-- It never gains a place.
pub count-insert-le :
    (x q : ℕ) (xs : List ℕ)
    → q ≢ x
    → 0 < length xs
    → count (is q) (insert_peer xs x).table ≤ count (is q) xs
unfolding insert_peer
count-insert-le x q xs h l = elim (Option-cases (find_index (is x) xs)) [
  | inr (i, e) ↦ rw (e, insert_peer) (omega arith)
  | inl e ↦ elim (Option-cases (find_index (is 0) xs)) [
    | inr (i, f) ↦
        let free = find_index-some (is 0) xs 0 i f in
        let written = count-set (is q) xs i x 0 free.0 in rw (e, insert_peer, f) (ground arith)
    | inl f ↦ let written = count-set (is q) xs 0 x 0 l in rw (e, insert_peer, f) (ground arith)
  ]
]

pub not_ignored : (s : Peers) (x : ℕ) → is_ignored s x ≡ false → x ≢ 0
not_ignored s x h = ground arith

-- After `SetNrscPeerActive` with a peer that is neither 0 nor the local player,
-- `IsNrscPeerActive` answers with the flag that was set.
pub is_active-set_active :
    (s : Peers) (x : ℕ) (active : Bool)
    → is_ignored s x ≡ false
    → 0 < length s.active
    → is_active (set_active s x active).0 x ≡ active
unfolding is_active set_active remove_peer
is_active-set_active s x true h k =
    let once = (count-insert_self x s.active (not_ignored s x h) k).0 in
    rw (h, h, is_some-find_index (is x) (insert_peer s.active x).table) (ground arith)
is_active-set_active s x false h k =
    rw
      (
        h,
        h,
        is_some-find_index (is x) (erase_peer s.active x),
        count-erase_self x s.active (not_ignored s x h),
      )
      refl
