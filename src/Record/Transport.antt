-- ===== src/Record/Transport.antt =====
-- `SetCachedReconnectTransportEvidence`, read through `SnapshotCachedReconnectRecordBySteamId`.
use revenant_fix.Prelude.{
  ℕ, ◌≡◌, ◌≢◌, ◌⊎◌, refl, ap, ◌∙◌, Bool, true, false, none, some, get_or, set, arith, find_index,
  find-cases, get_or-set_self, find_index-set, inl, inr, has_bit, ℕ_discrete,
}
use revenant_fix.Record.{Entry, empty_entry}
use revenant_fix.Record.Cache.{Cache, has, find_cached, snapshot, with_transport, set_transport}

-- Where the player's entry stands, and what a snapshot shows of it.
snapshot-active :
    (c : Cache) (id i : ℕ)
    → id ≢ 0
    → find_index (has id) c.active ≡ some i
    → has id (get_or c.active i empty_entry) ≡ true
    → snapshot c id ≡ (true, get_or c.active i empty_entry)
unfolding snapshot find_cached
snapshot-active c id i z f t = ground arith

snapshot-inactive :
    (c : Cache) (id i : ℕ)
    → id ≢ 0
    → find_index (has id) c.active ≡ none
    → find_index (has id) c.inactive ≡ some i
    → has id (get_or c.inactive i empty_entry) ≡ true
    → snapshot c id ≡ (true, get_or c.inactive i empty_entry)
unfolding snapshot find_cached
snapshot-inactive c id i z f g t = ground arith

snapshot-none :
    (c : Cache) (id : ℕ)
    → (id ≡ 0) ⊎ ((find_index (has id) c.active ≡ none) × (find_index (has id) c.inactive ≡ none))
    → (find_cached c id ≡ none) × ((snapshot c id).0 ≡ false)
unfolding snapshot find_cached
snapshot-none c id h = ground arith

-- What the call leaves in the two tables.
transport-active :
    (c : Cache) (id i now : ℕ) (up : Bool)
    → id ≢ 0
    → find_index (has id) c.active ≡ some i
    → ((set_transport c id up now).active
        ≡ set c.active i (with_transport (get_or c.active i empty_entry) up now))
      × ((set_transport c id up now).inactive ≡ c.inactive)
unfolding set_transport find_cached
transport-active c id i now up z f = ground arith

transport-inactive :
    (c : Cache) (id i now : ℕ) (up : Bool)
    → id ≢ 0
    → find_index (has id) c.active ≡ none
    → find_index (has id) c.inactive ≡ some i
    → ((set_transport c id up now).inactive
        ≡ set c.inactive i (with_transport (get_or c.inactive i empty_entry) up now))
      × ((set_transport c id up now).active ≡ c.active)
unfolding set_transport find_cached
transport-inactive c id i now up z f g = ground arith

-- The entry that a call for a known player leaves: the transport bit of its evidence is the flag,
-- the time is new, the revision counts a change of the evidence, and nothing else differs; above
-- all, the membership stays as it was.
pub snapshot-set_transport :
    (c : Cache) (id now : ℕ) (up : Bool) (e : Entry)
    → snapshot c id ≡ (true, e)
    → (snapshot (set_transport c id up now) id ≡ (true, with_transport e up now))
      × (has_bit (snapshot (set_transport c id up now) id).1.identity.evidence_mask 0 ≡ up)
      × ((snapshot (set_transport c id up now) id).1.identity.membership_state
          ≡ e.identity.membership_state)
snapshot-set_transport c id now up e h = elim (ℕ_discrete id 0) [
  | yes p ↦ absurd (ground (arith, snapshot-none c id (inl p)))
  | no z ↦ elim (find-cases (has id) c.active empty_entry) [
    | inr (i, f, lt, t) ↦
        let old = get_or c.active i empty_entry in
        let here : old ≡ e = ground (arith, snapshot-active c id i z f t) in
        let left = transport-active c id i now up z f in
        let again =
          find_index-set (has id) c.active i (with_transport old up now) empty_entry
            (ground arith) in
        let there = get_or-set_self c.active i (with_transport old up now) empty_entry lt in
        conclude (
          snapshot-active (set_transport c id up now) id i z (rw left.0 (again ∙ f))
            (rw (left.0, there) t)
          ∙ ap (λ x. (true, x)) (rw left.0 (there ∙ ap (λ x. with_transport x up now) here)))
    | inl (f, k) ↦ elim (find-cases (has id) c.inactive empty_entry) [
      | inl (g, l) ↦ absurd (ground (arith, snapshot-none c id (inr (f, g))))
      | inr (i, g, lt, t) ↦
          let old = get_or c.inactive i empty_entry in
          let here : old ≡ e = ground (arith, snapshot-inactive c id i z f g t) in
          let left = transport-inactive c id i now up z f g in
          let again =
            find_index-set (has id) c.inactive i (with_transport old up now) empty_entry
              (ground arith) in
          let there = get_or-set_self c.inactive i (with_transport old up now) empty_entry lt in
          conclude (
            snapshot-inactive (set_transport c id up now) id i z (rw left.1 f)
              (rw left.0 (again ∙ g)) (rw (left.0, there) t)
            ∙ ap (λ x. (true, x)) (rw left.0 (there ∙ ap (λ x. with_transport x up now) here)))
    ]
  ]
]
  where
    conclude :
        snapshot (set_transport c id up now) id ≡ (true, with_transport e up now)
        → (snapshot (set_transport c id up now) id ≡ (true, with_transport e up now))
          × (has_bit (snapshot (set_transport c id up now) id).1.identity.evidence_mask 0 ≡ up)
          × ((snapshot (set_transport c id up now) id).1.identity.membership_state
              ≡ e.identity.membership_state)
    conclude s = (s, rw s (bit_of up), rw s refl)
      where
        bit_of : (b : Bool) → has_bit (with_transport e b now).identity.evidence_mask 0 ≡ b
        bit_of true = ground arith
        bit_of false = ground arith
