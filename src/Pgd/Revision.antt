-- ===== src/Pgd/Revision.antt =====
-- Revisions only grow.
use revenant_fix.Prelude.{
  ℕ, ◌+◌, ◌^◌, ◌≤◌, ◌<◌, ◌≡◌, sym, ap, ◌∙◌, true, false, some, List, length, get_or, set, arith,
  count, find_index, find_elem, find_elem-some, find_elem-find_index, find_index-set, count-pos,
  get_or-set_self, ◌⊎◌, inl, inr, Bool-cases,
}
use revenant_fix.Pgd.{HotSnapshot, empty_snapshot}
use revenant_fix.Pgd.Store.{
  Request, is_target, drop_stale, choose_target, is_acceptable, is_rejected, is_written,
  next_revision, fresh, store_at, store,
}
use revenant_fix.Pgd.Fresh.{length-drop_stale, find-drop_stale, choose-cases}
use revenant_fix.Pgd.Written.{is_target-fresh}

next_revision-le :
    (r : Request) (t : HotSnapshot)
    → r.authoritative_replace ≡ false
    → is_target r t ≡ true
    → is_rejected r t ≡ false
    → t.snapshot_revision + 1 < 2 ^ 64
    → t.snapshot_revision ≤ (fresh r t).snapshot_revision
unfolding is_rejected next_revision fresh
next_revision-le r t a h k small = ground arith

store_at-revision :
    (r : Request) (xs : List HotSnapshot) (i : ℕ) (s : HotSnapshot)
    → r.authoritative_replace ≡ false
    → i < length xs
    → find_index (is_target r) xs ≡ some i
    → get_or xs i empty_snapshot ≡ s
    → is_target r s ≡ true
    → s.snapshot_revision + 1 < 2 ^ 64
    → (s' : HotSnapshot) × (find_elem (is_target r) (store_at r xs i).table ≡ some s')
      × (s.snapshot_revision ≤ s'.snapshot_revision)
unfolding store_at
store_at-revision r xs i s a lt f at t small = elim (Bool-cases (is_rejected r s)) [
  | inl e ↦ (s, rw (at, store_at, e) (kept), omega arith)
  | inr e ↦ elim (Bool-cases (is_written r s)) [
    | inr w ↦ (s, rw (at, store_at, e, store_at, w) kept, omega arith)
    | inl w ↦
        let v = fresh r s in
        let again =
          find_index-set (is_target r) xs i v empty_snapshot
            (ap (is_target r) at ∙ t ∙ sym (is_target-fresh r s)) in
        (
          v,
          rw (at, store_at, e, store_at, w)
              (find_elem-find_index (is_target r) (set xs i v) empty_snapshot i (again ∙ f)
                ∙ ap some (get_or-set_self xs i v empty_snapshot lt)),
          next_revision-le r s a t e small,
        )
  ]
]
  where
    kept : find_elem (is_target r) xs ≡ some s
    kept = find_elem-find_index (is_target r) xs empty_snapshot i f ∙ ap some at

-- A store that is not authoritative never lowers the revision of the player's snapshot under its
-- authority, and never drops that snapshot, whether it succeeds or not, where the table has a place
-- and that revision is below 2 ^ 64 - 1 (from there the next one would wrap).
pub store-revision :
    (r : Request) (xs : List HotSnapshot) (s : HotSnapshot)
    → 0 < length xs
    → r.authoritative_replace ≡ false
    → find_elem (is_target r) xs ≡ some s
    → s.snapshot_revision + 1 < 2 ^ 64
    → (s' : HotSnapshot) × (find_elem (is_target r) (store r xs).table ≡ some s')
      × (s.snapshot_revision ≤ s'.snapshot_revision)
unfolding store
store-revision r xs s n a h small = elim (Bool-cases (is_acceptable r)) [
  | inr e ↦ (s, rw e h, omega arith)
  | inl e ↦
      let ys = drop_stale r xs in
      let found = find_elem-some (is_target r) ys empty_snapshot s (find-drop_stale r xs ∙ h) in
      let place = choose-cases r ys (omega (arith, n, length-drop_stale r xs)) in
      rw e (locked ys found place)
]
  where
    locked :
        (ys : List HotSnapshot)
        → ((i : ℕ) × (find_index (is_target r) ys ≡ some i)
            × (i < length ys)
            × (get_or ys i empty_snapshot ≡ s)
            × (is_target r s ≡ true))
        → (choose_target r ys < length ys)
          × ((find_index (is_target r) ys ≡ some (choose_target r ys))
                × (is_target r (get_or ys (choose_target r ys) empty_snapshot) ≡ true)
              ⊎ (count (is_target r) ys ≡ 0))
        → (s' : HotSnapshot) × (find_elem (is_target r) (store_at r ys (choose_target r ys)).table
            ≡ some s')
          × (s.snapshot_revision ≤ s'.snapshot_revision)
    locked ys (i, f, lt, at, t) (below, inl (g, u)) =
        let same : i ≡ choose_target r ys = cc in
        store_at-revision r ys (choose_target r ys) s a below g (rw (← same) at) t small
    locked ys (i, f, lt, at, t) (below, inr none_yet) =
        absurd (omega (arith, none_yet, count-pos (is_target r) ys i empty_snapshot lt (rw at t)))
