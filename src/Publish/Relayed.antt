-- ===== src/Publish/Relayed.antt =====
-- What `AdvanceBhrcFullPgdSnapshotPublication` of src/reconnect_fix.cpp hands to Steam.
use revenant_fix.Prelude.{
  ℕ, suc, ◌+◌, ◌≡◌, ◌≢◌, ◌<◌, ◌⊎◌, refl, sym, ◌∙◌, ℕ_discrete, Bool, true, false, ◌&&◌, ◌||◌, not,
  none, List, [], ◌∷◌, arith, ◌==◌, if◌then◌else◌, Bool-cases, Option-cases, inl, inr, get_or,
  length, All, All-append, All-map,
}
use revenant_fix.Pgd.{SnapshotKey, HotSnapshot}
use revenant_fix.Pgd.Store.{copy}
use revenant_fix.Pgd.Copied.{copy_key}
use revenant_fix.Transfer.{ChunkPacket, owner_publish, authority_relay}
use revenant_fix.Transfer.Send.{chunk_at}
use revenant_fix.Restore.Sent.{send-All}
use revenant_fix.Publish.{
  mark_published, pending_keys, delivery_of, send_snapshot, relay_to, relay, publish, round_of,
  publish_each, advance_publication,
}

-- A packet to a target, of a player's data, for a purpose.
abbrev pub IsTo : ℕ → ℕ → ℕ → ChunkPacket → Type 0
IsTo target player purpose q =
    (q.target_steam_id ≡ target) × (q.owner_steam_id ≡ player) × (q.purpose ≡ purpose)

chunk-IsTo :
    (target purpose : ℕ) (key k : SnapshotKey) (bytes : List ℕ) (i : ℕ)
    → k.owner_steam_id ≡ key.owner_steam_id
    → IsTo target key.owner_steam_id purpose (chunk_at (delivery_of target k bytes purpose) i)
unfolding chunk_at
chunk-IsTo target purpose key k bytes i h = (refl, h, refl)

-- A relay to a peer of the table.
abbrev pub IsRelay : List ℕ → ChunkPacket → Type 0
IsRelay peers q =
    (q.purpose ≡ authority_relay)
    × (q.target_steam_id ≢ 0)
    × ((i : ℕ) × (i < length peers) × (get_or peers i 0 ≡ q.target_steam_id))

later-IsRelay :
    (peer : ℕ) (peers : List ℕ) (q : ChunkPacket) → IsRelay peers q → IsRelay (peer ∷ peers) q
later-IsRelay peer peers q (purpose, target, at) =
    (purpose, target, (suc at.0, omega (arith, at.1), at.2))

first-IsRelay :
    (peer player : ℕ) (peers : List ℕ)
    → peer ≢ 0
    → (q : ChunkPacket) → IsTo peer player authority_relay q
    → IsRelay (peer ∷ peers) q
first-IsRelay peer player peers nz q (target, owner, purpose) =
    (purpose, rw target nz, (0, omega arith, sym target))

-- A relay of the host goes to a peer of the table; a publication goes to the host.
abbrev pub IsPublished : ℕ → ℕ → List ℕ → ChunkPacket → Type 0
IsPublished local owner peers q =
    ((local ≡ owner)
      × (q.purpose ≡ authority_relay)
      × (q.target_steam_id ≢ 0)
      × ((i : ℕ) × (i < length peers) × (get_or peers i 0 ≡ q.target_steam_id)))
    ⊎ ((local ≢ owner)
        × (q.purpose ≡ owner_publish)
        × (q.target_steam_id ≡ owner)
        × (q.owner_steam_id ≡ local))

module _ (transport : ChunkPacket → Bool) where
  send_snapshot-IsTo :
      (target purpose : ℕ) (key : SnapshotKey) (xs : List HotSnapshot)
      → All
          (IsTo target key.owner_steam_id purpose)
          (send_snapshot transport target key purpose xs).1
  unfolding send_snapshot
  send_snapshot-IsTo target purpose key xs = elim (Option-cases (copy xs key)) [
    | inl f ↦ rw (send_snapshot, f) tt
    | inr ((k, bytes), f) ↦
        rw (send_snapshot, f)
          (send-All transport (IsTo target key.owner_steam_id purpose) (λ i. ([], 0))
            (delivery_of target k bytes purpose) none
            (λ i. chunk-IsTo target purpose key k bytes i (copy_key xs key k bytes f).0))
  ]

  -- A relay to one of the peers that pass the test.
  relay_to-All :
      (is_target : ℕ → Bool)
      → ((peer : ℕ) → is_target peer ≡ true → peer ≢ 0)
      → (peers : List ℕ) (key : SnapshotKey) (xs : List HotSnapshot)
      → All (IsRelay peers) (relay_to transport is_target peers key xs).packets
  unfolding relay_to
  relay_to-All is_target nz [] key xs = tt
  relay_to-All is_target nz (peer ∷ peers) key xs =
      let rest = relay_to transport is_target peers key xs in
      let out = send_snapshot transport peer key authority_relay xs in
      let later =
        All-map (IsRelay peers) (IsRelay (peer ∷ peers)) (later-IsRelay peer peers) rest.packets
          (relay_to-All is_target nz peers key xs) in
      elim (Bool-cases (is_target peer)) [
        | inr f ↦ rw (relay_to, f) later
        | inl t ↦
            rw (relay_to, t)
              (All-append (IsRelay (peer ∷ peers)) out.1 rest.packets
                (All-map (IsTo peer key.owner_steam_id authority_relay) (IsRelay (peer ∷ peers))
                  (first-IsRelay peer key.owner_steam_id peers (nz peer t)) out.1
                  (send_snapshot-IsTo peer authority_relay key xs))
                later)
      ]

  relay-All :
      (local : ℕ) (peers : List ℕ) (key : SnapshotKey) (xs : List HotSnapshot)
      → All (IsRelay peers) (relay transport local peers key xs).packets
  unfolding relay
  relay-All local peers key xs =
      let p = λ (peer : ℕ). not (peer == 0) && not (peer == key.owner_steam_id) in
      let q = λ (peer : ℕ). not (peer == 0) in
      let others = relay_to transport p peers key xs in
      let all = relay_to transport q peers key xs in
      let a = relay_to-All p (λ peer h. ground (arith, h)) peers key xs in
      let b = relay_to-All q (λ peer h. ground (arith, h)) peers key xs in
      elim (Bool-cases (not others.had_target && key.owner_steam_id == local)) [
        | inr f ↦ rw (relay, f) a
        | inl t ↦ rw (relay, t) (All-append (IsRelay peers) others.packets all.packets a b)
      ]

  publish-All :
      (local owner : ℕ) (is_peer_active : ℕ → Bool) (key : SnapshotKey) (xs : List HotSnapshot)
      → All
          (IsTo owner local owner_publish)
          (publish transport local owner is_peer_active key xs).packets
  unfolding publish
  publish-All local owner is_peer_active key xs =
      elim (Bool-cases (not (key.owner_steam_id == local) || not (is_peer_active owner))) [
        | inl t ↦ rw (publish, t) tt
        | inr f ↦
            let own : key.owner_steam_id ≡ local = ground (arith, f) in
            rw (publish, f)
              (All-map (IsTo owner key.owner_steam_id owner_publish)
                (IsTo owner local owner_publish) (λ q h. (h.0, h.1 ∙ own, h.2))
                (send_snapshot transport owner key owner_publish xs).1
                (send_snapshot-IsTo owner owner_publish key xs))
      ]

  round-IsPublished :
      (local owner : ℕ) (is_peer_active : ℕ → Bool) (peers : List ℕ) (key : SnapshotKey)
      (xs : List HotSnapshot)
      → All
          (IsPublished local owner peers)
          (round_of transport local owner is_peer_active peers key xs).packets
  round-IsPublished local owner is_peer_active peers key xs = elim (ℕ_discrete local owner) [
    | yes e ↦
        let t : (local == owner) ≡ true = ground (arith, e) in
        rw t (
          All-map (IsRelay peers) (IsPublished local owner peers) (λ q h. inl (e, h.0, h.1, h.2))
            (relay transport local peers key xs).packets (relay-All local peers key xs))
    | no n ↦
        let f : (local == owner) ≡ false = ground (arith, n) in
        rw f (
          All-map (IsTo owner local owner_publish) (IsPublished local owner peers)
            (λ q h. inr (n, h.2, h.0, h.1))
            (publish transport local owner is_peer_active key xs).packets
            (publish-All local owner is_peer_active key xs))
  ]

  publish_each-All :
      (clock : ℕ → ℕ) (local owner : ℕ) (is_peer_active : ℕ → Bool) (peers : List ℕ) (n : ℕ)
      (keys : List SnapshotKey) (xs : List HotSnapshot)
      → All
          (IsPublished local owner peers)
          (publish_each transport clock local owner is_peer_active peers n keys xs).0
  unfolding publish_each
  publish_each-All clock local owner is_peer_active peers n [] xs = tt
  publish_each-All clock local owner is_peer_active peers n (key ∷ keys) xs =
      let r = round_of transport local owner is_peer_active peers key xs in
      let next =
        if r.completed && (r.had_target || local == owner)
        then mark_published (clock n) key xs
        else xs in
      All-append (IsPublished local owner peers) r.packets
        (publish_each transport clock local owner is_peer_active peers (n + 1) keys next).0
        (round-IsPublished local owner is_peer_active peers key xs)
        (publish_each-All clock local owner is_peer_active peers (n + 1) keys next)

-- Every packet of a round of publication, whatever Steam answers, is one of two kinds: where the
-- local player is the host, a relay to a peer of the table other than 0; where not, the local
-- player's own data, to the host. Where the local player or the host is not known, nothing is sent
-- and nothing changes.
pub advance_publication_lem :
    (transport : ChunkPacket → Bool) (clock : ℕ → ℕ) (local owner : ℕ) (is_peer_active : ℕ → Bool)
    (peers : List ℕ) (xs : List HotSnapshot)
    → All
        (IsPublished local owner peers)
        (advance_publication transport clock local owner is_peer_active peers xs).0
      × ((local ≡ 0) ⊎ (owner ≡ 0)
          → advance_publication transport clock local owner is_peer_active peers xs ≡ ([], xs))
unfolding advance_publication
advance_publication_lem transport clock local owner is_peer_active peers xs =
    elim (Bool-cases (local == 0 || owner == 0)) [
      | inl t ↦ rw (advance_publication, t) (tt, λ h. refl)
      | inr f ↦
          rw (advance_publication, f)
            (
              publish_each-All transport clock local owner is_peer_active peers 0 (pending_keys xs)
                  xs,
              λ h. elim h [
                | inl e ↦ absurd (ground (arith, e, f))
                | inr e ↦ absurd (ground (arith, e, f))
              ],
            )
    ]
