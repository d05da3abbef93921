-- ===== src/Pgd/Generation/Rebound.antt =====
-- What a committed authority leaves of the hot snapshots, as `CopyBhrcFullPgdHotSnapshot` of
-- src/reconnect_fix.cpp reads them.
use revenant_fix.Prelude.{
  ℕ, zero, suc, ◌≤◌, ◌<◌, ◌≡◌, ◌≢◌, ◌⊎◌, refl, ap, ◌∙◌, Bool, true, ◌&&◌, none, some, List, [], ◌∷◌,
  leb, ◌==◌, length, get_or, count, find_index, find-cases, count-pos, place_unique, arith,
  Bool-cases, inl, inr, none≢some, some-injective,
}
use revenant_fix.Pgd.{
  SnapshotKey, HotSnapshot, empty_snapshot, key_of, min_payload_size, max_payload_size,
}
use revenant_fix.Pgd.Store.{is_same_expedition, is_exact, find_snapshot, matches, copy}
use revenant_fix.Pgd.Written.{IsValid}
use revenant_fix.Pgd.Generation.{Authority, rebound, rebind_each, reconcile_generation}

length-rebind : (a : Authority) (xs : List HotSnapshot) → length (rebind_each a xs) ≡ length xs
unfolding rebind_each
length-rebind a [] = refl
length-rebind a (s ∷ rest) = ap suc (length-rebind a rest)

get_or-rebind :
    (a : Authority) (xs : List HotSnapshot) (i : ℕ)
    → get_or (rebind_each a xs) i empty_snapshot ≡ rebound a (get_or xs i empty_snapshot)
unfolding rebind_each rebound
get_or-rebind a [] i = refl
get_or-rebind a (s ∷ rest) zero = refl
get_or-rebind a (s ∷ rest) (suc i) = get_or-rebind a rest i

find_index_once :
    (p : HotSnapshot → Bool) (xs : List HotSnapshot) (i : ℕ)
    → count p xs ≤ 1
    → i < length xs
    → p (get_or xs i empty_snapshot) ≡ true
    → find_index p xs ≡ some i
find_index_once p xs i once lt t = elim (find-cases p xs empty_snapshot) [
  | inl (f, c) ↦ absurd (omega (arith, c, count-pos p xs i empty_snapshot lt t))
  | inr (j, f, below, u) ↦ f ∙ ap some (place_unique p xs j i empty_snapshot once below lt u t)
]

-- Nothing is added to an expedition.
count-rebind-le :
    (a : Authority) (o m e : ℕ) (xs : List HotSnapshot)
    → count (is_same_expedition o m e) (rebind_each a xs) ≤ count (is_same_expedition o m e) xs
unfolding rebind_each rebound count
count-rebind-le a o m e [] = omega arith
count-rebind-le a o m e (s ∷ rest) = ground (arith, count-rebind-le a o m e rest)

find_index-rebind :
    (a : Authority) (p q : HotSnapshot → Bool)
    → ((s : HotSnapshot) → p (rebound a s) ≡ q s)
    → (xs : List HotSnapshot) → find_index p (rebind_each a xs) ≡ find_index q xs
unfolding find_index rebind_each
find_index-rebind a p q same [] = refl
find_index-rebind a p q same (s ∷ rest) = rw (same s, find_index-rebind a p q same rest) refl

reconcile-IsValid :
    (a : Authority) (xs : List HotSnapshot) → IsValid xs → IsValid (rebind_each a xs)
reconcile-IsValid a xs v = record {
  size = omega (arith, v.size, length-rebind a xs);
  once = λ o m e. omega (arith, v.once o m e, count-rebind-le a o m e xs);
}

-- On the host every snapshot that is left is pending.
rebound-pending :
    (a : Authority) (s : HotSnapshot)
    → a.local_steam_id ≡ a.owner_steam_id
    → (rebound a s).valid ≡ true
    → (rebound a s).publish_pending ≡ true
unfolding rebound
rebound-pending a s host left = ground (arith, host, left)

-- A snapshot of another expedition is gone.
copy_other :
    (a : Authority) (xs : List HotSnapshot) (k : SnapshotKey)
    → (k.master_lobby_id ≢ a.master_lobby_id) ⊎ (k.expedition_lobby_id ≢ a.lobby_id)
    → copy (rebind_each a xs) k ≡ none
unfolding copy find_snapshot rebound
copy_other a xs k other = elim (Bool-cases (k.owner_steam_id == 0)) [
  | inl z ↦ rw z refl
  | inr z ↦
      let p =
        is_exact k.owner_steam_id k.master_lobby_id k.expedition_lobby_id k.authority_commit_seq in
      elim (find-cases p (rebind_each a xs) empty_snapshot) [
        | inl (f, c) ↦ rw (z, f) refl
        | inr (i, f, lt, t) ↦
            absurd (gone (get_or xs i empty_snapshot) other (rw (get_or-rebind a xs i) at t))
      ]
]
  where
    gone :
        (s : HotSnapshot)
        → (k.master_lobby_id ≢ a.master_lobby_id) ⊎ (k.expedition_lobby_id ≢ a.lobby_id)
        → is_exact k.owner_steam_id k.master_lobby_id k.expedition_lobby_id k.authority_commit_seq
            (rebound a s)
          ≡ true
        → ⊥
    gone s (inl n) h = ground arith
    gone s (inr n) h = ground arith

module _ (a : Authority) (xs : List HotSnapshot) (k : SnapshotKey)
    (master : k.master_lobby_id ≡ a.master_lobby_id)
    (expedition : k.expedition_lobby_id ≡ a.lobby_id) where
  abbrev own : HotSnapshot → Bool
  own = is_same_expedition k.owner_steam_id k.master_lobby_id k.expedition_lobby_id

  abbrev exact : HotSnapshot → Bool
  exact = is_exact k.owner_steam_id k.master_lobby_id k.expedition_lobby_id k.authority_commit_seq

  exact-rebound :
      a.local_steam_id ≢ a.owner_steam_id → (s : HotSnapshot) → exact (rebound a s) ≡ exact s
  unfolding rebound
  exact-rebound guest s = ground (arith, guest, master, expedition)

  rebound_guest :
      a.local_steam_id ≢ a.owner_steam_id → (s : HotSnapshot) → exact s ≡ true → rebound a s ≡ s
  unfolding rebound
  rebound_guest guest s h = ground (arith, guest, master, expedition)

  -- A client keeps the snapshots of the expedition.
  copy_guest : a.local_steam_id ≢ a.owner_steam_id → copy (rebind_each a xs) k ≡ copy xs k
  unfolding copy find_snapshot
  copy_guest guest =
      let found = find_index-rebind a exact exact (exact-rebound guest) xs in
      elim (Bool-cases (k.owner_steam_id == 0)) [
        | inl z ↦ rw (z, copy) refl
        | inr z ↦ elim (find-cases exact xs empty_snapshot) [
          | inl (f, c) ↦ rw (z, copy, found, f) refl
          | inr (i, f, lt, t) ↦
              let kept = rebound_guest guest (get_or xs i empty_snapshot) t in
              rw (z, copy, found, f, get_or-rebind a xs i, kept) refl
        ]
      ]

  -- The test of a look-up under the committed authority.
  abbrev committed : HotSnapshot → Bool
  committed = is_exact k.owner_steam_id k.master_lobby_id k.expedition_lobby_id a.commit_seq

  committed-rebound :
      a.local_steam_id ≡ a.owner_steam_id → (s : HotSnapshot) → committed (rebound a s) ≡ own s
  unfolding rebound
  committed-rebound host s = ground (arith, host, master, expedition)

  rebound_host :
      a.local_steam_id ≡ a.owner_steam_id
      → (s : HotSnapshot) → own s ≡ true
      → rebound a s ≡ record s { authority_commit_seq = a.commit_seq; publish_pending = true }
  unfolding rebound
  rebound_host host s h = ground (arith, host, master, expedition)

  -- The host finds its snapshots under the committed authority.
  copy_host :
      (found : SnapshotKey) (bytes : List ℕ)
      → a.local_steam_id ≡ a.owner_steam_id
      → IsValid xs
      → copy xs k ≡ some (found, bytes)
      → copy (rebind_each a xs) (record k { authority_commit_seq = a.commit_seq })
        ≡ some (record found { authority_commit_seq = a.commit_seq }, bytes)
  unfolding copy find_snapshot
  copy_host found bytes host v h = elim (Bool-cases (k.owner_steam_id == 0)) [
    | inl z ↦ absurd (none≢some (rw (z, copy) refl) h)
    | inr z ↦ elim (find-cases exact xs empty_snapshot) [
      | inl (f, c) ↦ absurd (none≢some (rw (z, copy, f) refl) h)
      | inr (i, f, lt, t) ↦
          let s = get_or xs i empty_snapshot in
          let mine : own s ≡ true = ground (arith, t) in
          let once = v.once k.owner_steam_id k.master_lobby_id k.expedition_lobby_id in
          let same = find_index-rebind a committed own (committed-rebound host) xs in
          let place = find_index_once own xs i once lt mine in
          let now = rebound_host host s mine in
          let fits =
            matches k.codec_version s.codec_version
            && (matches k.snapshot_revision s.snapshot_revision
                && (matches k.payload_size s.payload_size
                    && (matches k.payload_hash32 s.payload_hash32
                        && (leb min_payload_size s.payload_size
                            && leb s.payload_size max_payload_size)))) in
          elim (Bool-cases fits) [
            | inr g ↦ absurd (none≢some (rw (z, copy, f, g) refl) h)
            | inl g ↦
                let old : some (key_of s, s.payload) ≡ some (found, bytes) =
                  (rw (z, copy, f, g) at h) in
                let pair = some-injective old in
                rw (z, copy, same, place, get_or-rebind a xs i, now, g)
                  (ap
                    (λ (r : SnapshotKey × List ℕ).
                      some (record (r.0) { authority_commit_seq = a.commit_seq }, r.1))
                    pair)
          ]
    ]
  ]

reconcile_valid :
    (a : Authority) (xs : List HotSnapshot)
    → a.valid ≡ true
    → reconcile_generation a xs ≡ rebind_each a xs
unfolding reconcile_generation
reconcile_valid a xs valid = ground (arith, valid)

-- A commit of an authority keeps six places and one snapshot at most of a player in an expedition.
-- A snapshot of another expedition cannot be copied any more. On a client, the snapshots of the
-- committed expedition are copied as before. On the host, what could be copied under any authority
-- of the expedition is copied under the committed one, with the same bytes and otherwise the same
-- key, and every snapshot that is left is pending for publication.
pub reconcile_generation_lem :
    (a : Authority) (xs : List HotSnapshot) (k : SnapshotKey)
    → a.valid ≡ true
    → IsValid xs
    → IsValid (reconcile_generation a xs)
      × ((k.master_lobby_id ≢ a.master_lobby_id) ⊎ (k.expedition_lobby_id ≢ a.lobby_id)
          → copy (reconcile_generation a xs) k ≡ none)
      × (k.master_lobby_id ≡ a.master_lobby_id
          → k.expedition_lobby_id ≡ a.lobby_id
          → a.local_steam_id ≢ a.owner_steam_id
          → copy (reconcile_generation a xs) k ≡ copy xs k)
      × (k.master_lobby_id ≡ a.master_lobby_id
          → k.expedition_lobby_id ≡ a.lobby_id
          → a.local_steam_id ≡ a.owner_steam_id
          → (found : SnapshotKey) (bytes : List ℕ) → copy xs k ≡ some (found, bytes)
          → copy (reconcile_generation a xs) (record k { authority_commit_seq = a.commit_seq })
            ≡ some (record found { authority_commit_seq = a.commit_seq }, bytes))
      × ((i : ℕ)
          → a.local_steam_id ≡ a.owner_steam_id
          → (get_or (reconcile_generation a xs) i empty_snapshot).valid ≡ true
          → (get_or (reconcile_generation a xs) i empty_snapshot).publish_pending ≡ true)
reconcile_generation_lem a xs k valid v = rw (reconcile_valid a xs valid) (
  reconcile-IsValid a xs v,
  λ other. copy_other a xs k other,
  λ master expedition guest. copy_guest a xs k master expedition guest,
  λ master expedition host found bytes h. copy_host a xs k master expedition found bytes host v h,
  λ i host left.
      rw (get_or-rebind a xs i)
        (rebound-pending a (get_or xs i empty_snapshot) host (rw (get_or-rebind a xs i) at left)),
)
