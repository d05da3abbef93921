-- ===== src/Peers/Known.antt =====
-- The table of the peers ever seen.
use revenant_fix.Prelude.{
  ℕ, ◌%◌, ◌≤◌, ◌<◌, ◌≡◌, ◌≢◌, false, List, length, set, arith, count, count-set, count-pos,
  count-zero-get, find-cases, inl, inr, ℕ_discrete,
}
use revenant_fix.Peers.{Peers, is, is_ignored, remember}
use revenant_fix.Peers.Active.{not_ignored}

abbrev pub Once : List ℕ → Type 0
Once xs = (q : ℕ) → q ≢ 0 → count (is q) xs ≤ 1

-- Writing a peer that does not stand in the table keeps every peer in one place at most.
Once-set :
    (xs : List ℕ) (i x : ℕ)
    → i < length xs
    → x ≢ 0
    → count (is x) xs ≡ 0
    → Once xs
    → (count (is x) (set xs i x) ≡ 1) × Once (set xs i x)
Once-set xs i x h z c u = (self, others)
  where
    self : count (is x) (set xs i x) ≡ 1
    self =
        let absent = count-zero-get (is x) xs i 0 h c in
        let written = count-set (is x) xs i x 0 h in ground arith

    others : (q : ℕ) → q ≢ 0 → count (is q) (set xs i x) ≤ 1
    others q k = elim (ℕ_discrete q x) [
      | yes p ↦ rw (p, self) (omega arith)
      | no p ↦ let written = count-set (is q) xs i x 0 h in let old = u q k in ground arith
    ]

-- `RememberNrscPeerSteamId`, for a peer that is neither 0 nor the local player: afterwards it
-- stands in the table of eight exactly once, and no other peer stands there twice.
pub remember-Once :
    (s : Peers) (x : ℕ)
    → is_ignored s x ≡ false
    → length s.known ≡ 8
    → Once s.known
    → (count (is x) (remember s x).known ≡ 1) × Once (remember s x).known
unfolding remember
remember-Once s x h n u = elim (find-cases (is x) s.known 0) [
  | inr (i, e, lt, t) ↦
      let present = count-pos (is x) s.known i 0 lt t in
      let once = u x (not_ignored s x h) in rw (h, e) (omega arith, u)
  | inl (e, c) ↦ elim (find-cases (is 0) s.known 0) [
    | inr (i, f, lt, t) ↦ rw (h, e, f) (Once-set s.known i x lt (not_ignored s x h) c u)
    | inl (f, d) ↦
        rw (h, e, f) (Once-set s.known (s.known_cursor % 8) x (omega arith) (not_ignored s x h) c u)
  ]
]
