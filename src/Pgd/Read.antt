-- ===== src/Pgd/Read.antt =====
-- What was stored can be read back.
use revenant_fix.Prelude.{
  ℕ, ◌%◌, ◌^◌, ◌≤◌, ◌<◌, ◌≡◌, ◌≢◌, refl, sym, ap, ◌∙◌, true, false, some, List, length, get_or, set,
  arith, find_index, find_index-set, find_index-set_new, get_or-set_self, ◌⊎◌, inl, inr, Bool-cases,
  count, count-pos,
}
use mathlib.Core.Bool.{false≢true}
use revenant_fix.Pgd.{
  HotSnapshot, empty_snapshot, key_of, min_payload_size, max_payload_size, chunks_of,
}
use revenant_fix.Pgd.Store.{
  Request, is_exact, is_target, find_snapshot, drop_stale, choose_target, is_acceptable,
  is_same_data, is_rejected, is_written, fresh, store_at, store, copy,
}
use revenant_fix.Pgd.Fresh.{length-drop_stale, choose-cases}
use revenant_fix.Pgd.Written.{is_target-fresh}
use revenant_fix.Pgd.Shape.{is_shape_valid_lem, bytes_eq-eq}

-- A copy by the key of a snapshot that is found under it.
copy-hit :
    (xs : List HotSnapshot) (s : HotSnapshot) (i : ℕ)
    → s.owner_steam_id ≢ 0
    → find_snapshot xs s.owner_steam_id s.master_lobby_id s.expedition_lobby_id
        s.authority_commit_seq
      ≡ some i
    → get_or xs i empty_snapshot ≡ s
    → min_payload_size ≤ s.payload_size
    → s.payload_size ≤ max_payload_size
    → copy xs (key_of s) ≡ some (key_of s, s.payload)
unfolding copy
copy-hit xs s i z f at low high = rw (f, copy, at) (ground arith)

acceptable_lem :
    (r : Request)
    → is_acceptable r ≡ true
    → (r.owner_steam_id ≢ 0)
      × (min_payload_size ≤ length r.payload)
      × (length r.payload ≤ max_payload_size)
unfolding is_acceptable
acceptable_lem r h =
    ground (arith, is_shape_valid_lem (length r.payload) (chunks_of (length r.payload) % 2 ^ 16))

unwritten_lem :
    (r : Request) (s : HotSnapshot)
    → is_written r s ≡ false
    → (is_target r s ≡ true) × (is_same_data r s ≡ true)
unfolding is_written
unwritten_lem r s w = ground arith

module _ (r : Request) (xs : List HotSnapshot) (i : ℕ) (lt : i < length xs)
    (place : (find_index (is_target r) xs ≡ some i)
        × (is_target r (get_or xs i empty_snapshot) ≡ true)
      ⊎ (count (is_target r) xs ≡ 0)) where
  -- The request's snapshot is found at its place in the table that is written.
  find-set :
      (v : HotSnapshot) → is_target r v ≡ true → find_index (is_target r) (set xs i v) ≡ some i
  find-set v t = elim place [
    | inl (f, u) ↦ find_index-set (is_target r) xs i v empty_snapshot (u ∙ sym t) ∙ f
    | inr none_yet ↦ find_index-set_new (is_target r) xs i v none_yet lt t
  ]

  find-kept : is_target r (get_or xs i empty_snapshot) ≡ true → find_index (is_target r) xs ≡ some i
  find-kept t = elim place [
    | inl (f, u) ↦ f
    | inr none_yet ↦
        absurd (omega (arith, none_yet, count-pos (is_target r) xs i empty_snapshot lt t))
  ]

  module _ (ok : is_acceptable r ≡ true) where
    copy-written :
        copy
          (set xs i (fresh r (get_or xs i empty_snapshot)))
          (key_of (fresh r (get_or xs i empty_snapshot)))
        ≡ some (key_of (fresh r (get_or xs i empty_snapshot)), r.payload)
    unfolding fresh find_snapshot
    copy-written =
        let t = get_or xs i empty_snapshot in
        let (z, low, high) = acceptable_lem r ok in
        copy-hit (set xs i (fresh r t)) (fresh r t) i z (find-set (fresh r t) (is_target-fresh r t))
          (get_or-set_self xs i (fresh r t) empty_snapshot lt) low high

    copy-kept :
        is_target r (get_or xs i empty_snapshot) ≡ true
        → is_same_data r (get_or xs i empty_snapshot) ≡ true
        → copy xs (key_of (get_or xs i empty_snapshot))
          ≡ some (key_of (get_or xs i empty_snapshot), r.payload)
    unfolding is_same_data find_snapshot
    copy-kept t same =
        let s = get_or xs i empty_snapshot in
        let (z, low, high) = acceptable_lem r ok in
        let eo : s.owner_steam_id ≡ r.owner_steam_id = ground arith in
        let em : s.master_lobby_id ≡ r.master_lobby_id = ground arith in
        let ee : s.expedition_lobby_id ≡ r.expedition_lobby_id = ground arith in
        let es : s.authority_commit_seq ≡ r.authority_commit_seq = ground arith in
        let size : s.payload_size ≡ length r.payload = ground arith in
        let bytes : s.payload ≡ r.payload = bytes_eq-eq s.payload r.payload (ground arith) in
        copy-hit xs s i (omega (arith, z, eo)) (found eo em ee es (find-kept t)) refl (omega arith)
          (omega arith)
        ∙ ap (λ (p : List ℕ). some (key_of s, p)) bytes
      where
        found :
            {o m e q : ℕ}
            → o ≡ r.owner_steam_id
            → m ≡ r.master_lobby_id
            → e ≡ r.expedition_lobby_id
            → q ≡ r.authority_commit_seq
            → find_index (is_target r) xs ≡ some i
            → find_index (is_exact o m e q) xs ≡ some i
        found eo em ee es f = rw (eo, em, ee, es) f

    copy-store_at :
        (store_at r xs i).ok ≡ true
        → copy (store_at r xs i).table (store_at r xs i).key
          ≡ some ((store_at r xs i).key, r.payload)
    unfolding store_at fresh
    copy-store_at h = elim (Bool-cases (is_rejected r (get_or xs i empty_snapshot))) [
      | inl e ↦ absurd (false≢true (rw (e, store_at) at h))
      | inr e ↦ elim (Bool-cases (is_written r (get_or xs i empty_snapshot))) [
        | inl w ↦ rw (e, store_at, w) copy-written
        | inr w ↦
            let t = unwritten (get_or xs i empty_snapshot) w in
            let valid : (get_or xs i empty_snapshot).valid ≡ true = ground (arith, t.0) in
            rw (e, store_at, w, valid) (copy-kept t.0 t.1)
      ]
    ]
      where
        unwritten :
            (s : HotSnapshot)
            → is_written r s ≡ false
            → (is_target r s ≡ true) × (is_same_data r s ≡ true)
        unwritten s w = unwritten_lem r s w

-- After a store that succeeds, a copy by the key that it returned yields that key and exactly the
-- bytes that were stored.
pub copy-store :
    (r : Request) (xs : List HotSnapshot)
    → 0 < length xs
    → (store r xs).ok ≡ true
    → copy (store r xs).table (store r xs).key ≡ some ((store r xs).key, r.payload)
unfolding store
copy-store r xs n h = elim (Bool-cases (is_acceptable r)) [
  | inr e ↦ absurd (false≢true (rw e at h))
  | inl e ↦
      let kept = drop_stale r xs in
      let place = choose-cases r kept (omega (arith, n, length-drop_stale r xs)) in
      rw e (copy-store_at r kept (choose_target r kept) place.0 place.1 e (rw e at h))
]
