-- ===== src/Pgd/Fresh.antt =====
-- The steps before a snapshot is written: stale snapshots are dropped, and a place is chosen.
use revenant_fix.Prelude.{
  ℕ, suc, ◌+◌, ◌≤◌, ◌<◌, ◌≡◌, refl, ap, true, some, List, [], ◌∷◌, length, get_or, arith, count,
  find_index, find_elem, find-cases, ◌⊎◌, inl, inr,
}
use revenant_fix.Pgd.{HotSnapshot, empty_snapshot}
use revenant_fix.Pgd.Store.{
  Request, is_same_expedition, is_target, is_free, drop_stale, oldest_from, choose_target,
}

pub length-drop_stale : (r : Request) (xs : List HotSnapshot) → length (drop_stale r xs) ≡ length xs
unfolding drop_stale
length-drop_stale r [] = refl
length-drop_stale r (s ∷ ss) = ap suc (length-drop_stale r ss)

pub count-drop_stale-le :
    (r : Request) (xs : List HotSnapshot) (o m e : ℕ)
    → count (is_same_expedition o m e) (drop_stale r xs) ≤ count (is_same_expedition o m e) xs
unfolding drop_stale count
count-drop_stale-le r [] o m e = omega arith
count-drop_stale-le r (s ∷ ss) o m e = ground (arith, count-drop_stale-le r ss o m e)

-- Of the request's expedition only its own authority is left.
pub count-drop_stale_own :
    (r : Request) (xs : List HotSnapshot)
    → count
        (is_same_expedition r.owner_steam_id r.master_lobby_id r.expedition_lobby_id)
        (drop_stale r xs)
      ≡ count (is_target r) (drop_stale r xs)
unfolding drop_stale count
count-drop_stale_own r [] = refl
count-drop_stale_own r (s ∷ ss) = ground (arith, count-drop_stale_own r ss)

-- The request's own snapshot is kept.
pub find-drop_stale :
    (r : Request) (xs : List HotSnapshot)
    → find_elem (is_target r) (drop_stale r xs) ≡ find_elem (is_target r) xs
unfolding drop_stale find_elem
find-drop_stale r [] = refl
find-drop_stale r (s ∷ ss) = ground (arith, find-drop_stale r ss)

oldest_from-lt :
    (xs : List HotSnapshot) (index best tick n : ℕ)
    → best < n
    → index + length xs ≤ n
    → oldest_from xs index best tick < n
unfolding oldest_from
oldest_from-lt [] index best tick n h k = h
oldest_from-lt (s ∷ ss) index best tick n h k = ground (
  arith,
  oldest_from-lt ss (index + 1) index s.updated_tick_ms n,
  oldest_from-lt ss (index + 1) best tick n,
)

-- The place is in the table. It is that of the request's own snapshot, if there is one.
pub choose-cases :
    (r : Request) (xs : List HotSnapshot)
    → 0 < length xs
    → (choose_target r xs < length xs)
      × ((find_index (is_target r) xs ≡ some (choose_target r xs))
            × (is_target r (get_or xs (choose_target r xs) empty_snapshot) ≡ true)
          ⊎ (count (is_target r) xs ≡ 0))
unfolding choose_target
choose-cases r xs h = elim (find-cases (is_target r) xs empty_snapshot) [
  | inr (i, f, lt, t) ↦ rw (f, choose_target) (lt, inl (refl, t))
  | inl (f, k) ↦ elim (find-cases is_free xs empty_snapshot) [
    | inr (i, g, lt, t) ↦ rw (f, choose_target, g) (lt, inr k)
    | inl (g, l) ↦
        rw (f, choose_target, g)
          (
            oldest_from-lt xs 0 0 (get_or xs 0 empty_snapshot).updated_tick_ms (length xs) h
                (omega arith),
            inr k,
          )
  ]
]
