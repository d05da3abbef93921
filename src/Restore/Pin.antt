-- ===== src/Restore/Pin.antt =====
-- Whose snapshot `PinBhrcFullPgdRestoreSnapshotForAttempt` of src/reconnect_fix.cpp pins.
use revenant_fix.Prelude.{
  ℕ, ◌≡◌, refl, sym, ap, Bool, true, false, ◌&&◌, some, List, ◌==◌, arith, Bool-cases, Option-cases,
  inl, inr, find_elem, find_elem-some, none≢some, some-injective,
}
use revenant_fix.Pgd.{SnapshotKey}
use revenant_fix.Pgd.Copied.{some_if, copy_key}
use revenant_fix.Pgd.Store.{copy}
use revenant_fix.Admission.{Attempt}
use revenant_fix.Restore.{Pinned, empty_pinned, State}
use revenant_fix.Restore.Table.{
  is_pinned_for, inherited, candidate, checked, is_intact, is_snapshot_of, requested_key,
}

-- A key for the player and the expedition of an attempt.
abbrev pub IsKeyOf : Attempt → SnapshotKey → Type 0
IsKeyOf a key =
    (key.owner_steam_id ≡ a.steam_id)
    × (key.master_lobby_id ≡ a.master_lobby_id)
    × (key.expedition_lobby_id ≡ a.expedition_lobby_id)
    × (key.authority_commit_seq ≡ a.authority_commit_seq)

pub is_pinned_for-IsKeyOf :
    (b : Bool) (a : Attempt) (p : Pinned) → is_pinned_for b a p ≡ true → IsKeyOf a p.key
unfolding is_pinned_for
is_pinned_for-IsKeyOf b a p h = (ground arith, ground arith, ground arith, ground arith)

pub checked_lem :
    (key k : SnapshotKey) (bytes bs : List ℕ)
    → checked key bytes ≡ some (k, bs)
    → (key ≡ k) × (bytes ≡ bs) × (is_intact k bs ≡ true)
checked_lem key k bytes bs h =
    let (t, e) = some_if (is_intact key bytes) h in
    let ke = ap (λ pair. pair.0) e in
    let be = ap (λ pair. pair.1) e in (ke, be, rw (sym ke, sym be) t)

inherited-IsKeyOf :
    (a : Attempt) (ps : List Pinned) (key : SnapshotKey) (bytes : List ℕ)
    → inherited a ps ≡ some (key, bytes)
    → IsKeyOf a key
unfolding inherited
inherited-IsKeyOf a ps key bytes h = elim (Bool-cases (a.full_pgd_snapshot_revision == 0)) [
  | inl z ↦ absurd (none≢some (rw (z, inherited) refl) h)
  | inr z ↦
      elim (Option-cases (find_elem (λ p. is_pinned_for false a p && is_snapshot_of a p.key) ps)) [
        | inl f ↦ absurd (none≢some (rw (z, inherited, f) refl) h)
        | inr (p, f) ↦
            let (i, fi, lt, e, t) =
              find_elem-some (λ p. is_pinned_for false a p && is_snapshot_of a p.key) ps
                empty_pinned p f in
            let same = ap (λ pair. pair.0) (some-injective (rw (z, inherited, f) at h)) in
            rw (sym same) (is_pinned_for-IsKeyOf false a p (ground arith))
      ]
]

-- A snapshot that is pinned is one of the attempt's player in the attempt's expedition, and its
-- fingerprint is the one of its bytes.
pub candidate_lem :
    (a : Attempt) (s : State) (key : SnapshotKey) (bytes : List ℕ)
    → candidate a s ≡ some (key, bytes)
    → IsKeyOf a key × (is_intact key bytes ≡ true)
unfolding candidate
candidate_lem a s key bytes h = elim (Option-cases (inherited a s.pinned)) [
  | inr ((k, bs), f) ↦
      let (ke, be, ok) = checked_lem k key bs bytes (rw (f, candidate) at h) in
      (rw (sym ke) (inherited-IsKeyOf a s.pinned k bs f), ok)
  | inl f ↦ elim (Option-cases (copy s.snapshots (requested_key a))) [
    | inl g ↦ absurd (none≢some (rw (f, candidate, g) refl) h)
    | inr ((k, bs), g) ↦
        let (ke, be, ok) = checked_lem k key bs bytes (rw (f, candidate, g) at h) in
        (rw (sym ke) (copy_key s.snapshots (requested_key a) k bs g), ok)
  ]
]
