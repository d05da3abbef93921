-- ===== src/Pgd/Copied.antt =====
-- What `CopyBhrcFullPgdHotSnapshot` of src/reconnect_fix.cpp returns.
use revenant_fix.Prelude.{
  ℕ, ◌≡◌, refl, sym, ap, Bool, true, false, ◌&&◌, none, some, List, leb, ◌==◌, arith, if◌then◌else◌,
  Bool-cases, inl, inr, find-cases, none≢some, some-injective, get_or,
}
use revenant_fix.Pgd.{SnapshotKey, HotSnapshot, empty_snapshot, min_payload_size, max_payload_size}
use revenant_fix.Pgd.Store.{copy, matches, find_snapshot, is_exact}

unfoldable is_copyable : SnapshotKey → HotSnapshot → Bool
is_copyable k s =
    matches k.codec_version s.codec_version
    && (matches k.snapshot_revision s.snapshot_revision
        && (matches k.payload_size s.payload_size
            && (matches k.payload_hash32 s.payload_hash32
                && (leb min_payload_size s.payload_size && leb s.payload_size max_payload_size))))

pub some_if {ℓ} :
    {A : Type ℓ} (b : Bool) {v w : A} → (if b then some v else none) ≡ some w → (b ≡ true) × (v ≡ w)
some_if true h = (refl, some-injective h)
some_if false h = absurd (none≢some refl h)

exact_key :
    (k : SnapshotKey) (x : HotSnapshot)
    → is_exact k.owner_steam_id k.master_lobby_id k.expedition_lobby_id k.authority_commit_seq x
      ≡ true
    → (x.owner_steam_id ≡ k.owner_steam_id)
      × (x.master_lobby_id ≡ k.master_lobby_id)
      × (x.expedition_lobby_id ≡ k.expedition_lobby_id)
      × (x.authority_commit_seq ≡ k.authority_commit_seq)
exact_key k x h = (ground arith, ground arith, ground arith, ground arith)

-- A copy is of the player, the expedition and the authority that were asked for.
pub copy_key :
    (xs : List HotSnapshot) (k key : SnapshotKey) (bytes : List ℕ)
    → copy xs k ≡ some (key, bytes)
    → (key.owner_steam_id ≡ k.owner_steam_id)
      × (key.master_lobby_id ≡ k.master_lobby_id)
      × (key.expedition_lobby_id ≡ k.expedition_lobby_id)
      × (key.authority_commit_seq ≡ k.authority_commit_seq)
unfolding copy find_snapshot is_copyable
copy_key xs k key bytes h = elim (Bool-cases (k.owner_steam_id == 0)) [
  | inl z ↦ absurd (none≢some (rw (z, copy) refl) h)
  | inr z ↦
      elim (find-cases
        (is_exact k.owner_steam_id k.master_lobby_id k.expedition_lobby_id k.authority_commit_seq)
        xs empty_snapshot) [
          | inl (f, c) ↦ absurd (none≢some (rw (z, copy, f) refl) h)
          | inr (i, f, lt, t) ↦
              let x = get_or xs i empty_snapshot in
              let found = some_if (is_copyable k x) (rw (z, copy, find_snapshot, f) at h) in
              rw (sym (ap (λ pair. pair.0) found.1)) (exact_key k x t)
        ]
]
