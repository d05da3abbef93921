-- ===== src/Pgd/Written.antt =====
-- What a store leaves in the table.
use revenant_fix.Prelude.{
  ℕ, ◌≤◌, ◌<◌, ◌≡◌, refl, ap, true, List, length, get_or, set, arith, bit, count, count-set,
  length-set, ◌⊎◌, inl, inr, Bool-cases,
}
use revenant_fix.Pgd.{HotSnapshot, empty_snapshot}
use revenant_fix.Pgd.Store.{
  Request, is_same_expedition, is_target, drop_stale, choose_target, is_acceptable, is_rejected,
  is_written, fresh, store_at, store,
}
use revenant_fix.Pgd.Fresh.{
  length-drop_stale, count-drop_stale-le, count-drop_stale_own, choose-cases,
}

-- Six places, and one snapshot at most of a player in an expedition.
pub record IsValid (xs : List HotSnapshot) : Type 0 where
  pub size : length xs ≡ 6
  pub once : (o m e : ℕ) → count (is_same_expedition o m e) xs ≤ 1

pub is_target-fresh : (r : Request) (t : HotSnapshot) → is_target r (fresh r t) ≡ true
unfolding fresh
is_target-fresh r t = ground arith

-- The table after the locked part.
table-store_at :
    (r : Request) (xs : List HotSnapshot) (i : ℕ)
    → ((store_at r xs i).table ≡ xs)
      ⊎ ((store_at r xs i).table ≡ set xs i (fresh r (get_or xs i empty_snapshot)))
unfolding store_at
table-store_at r xs i = elim (Bool-cases (is_rejected r (get_or xs i empty_snapshot))) [
  | inl e ↦ rw e (inl refl)
  | inr e ↦ elim (Bool-cases (is_written r (get_or xs i empty_snapshot))) [
    | inl w ↦ rw (e, store_at, w) (inr refl)
    | inr w ↦ rw (e, store_at, w) (inl refl)
  ]
]

set-IsValid :
    (r : Request) (xs : List HotSnapshot) (i : ℕ) (v : HotSnapshot)
    → IsValid xs
    → i < length xs
    → is_target r v ≡ true
    → (is_target r (get_or xs i empty_snapshot) ≡ true)
      ⊎ (count (is_same_expedition r.owner_steam_id r.master_lobby_id r.expedition_lobby_id) xs ≡ 0)
    → IsValid (set xs i v)
set-IsValid r xs i v valid lt t h = record {
  size = omega (arith, valid.size, length-set xs i v);
  once = λ o m e. elim (Bool-cases (is_same_expedition o m e v)) [
    | inr different ↦ omega (
      arith,
      valid.once o m e,
      count-set (is_same_expedition o m e) xs i v empty_snapshot lt,
      ap bit different,
    )
    | inl same ↦ one o m e same h
  ];
}
  where
    one :
        (o m e : ℕ)
        → is_same_expedition o m e v ≡ true
        → (is_target r (get_or xs i empty_snapshot) ≡ true)
          ⊎ (count (is_same_expedition r.owner_steam_id r.master_lobby_id r.expedition_lobby_id) xs
              ≡ 0)
        → count (is_same_expedition o m e) (set xs i v) ≤ 1
    one o m e same (inl old) =
        let written = count-set (is_same_expedition o m e) xs i v empty_snapshot lt in
        let before = valid.once o m e in ground arith
    one o m e same (inr none_yet) =
        let eo : o ≡ r.owner_steam_id = ground arith in
        let em : m ≡ r.master_lobby_id = ground arith in
        let ee : e ≡ r.expedition_lobby_id = ground arith in
        let absent : count (is_same_expedition o m e) xs ≡ 0 = rw (eo, em, ee) none_yet in
        omega (
          arith,
          absent,
          count-set (is_same_expedition o m e) xs i v empty_snapshot lt,
          ap bit same,
        )

drop_stale-IsValid : (r : Request) (xs : List HotSnapshot) → IsValid xs → IsValid (drop_stale r xs)
drop_stale-IsValid r xs v = record {
  size = omega (arith, v.size, length-drop_stale r xs);
  once = λ o m e. omega (arith, v.once o m e, count-drop_stale-le r xs o m e);
}

-- A store, accepted or refused, leaves six places with one snapshot at most of a player in an
-- expedition, whatever the authority that committed it.
pub store-IsValid : (r : Request) (xs : List HotSnapshot) → IsValid xs → IsValid (store r xs).table
unfolding store
store-IsValid r xs v = elim (Bool-cases (is_acceptable r)) [
  | inr e ↦ rw e v
  | inl e ↦ rw e (locked (drop_stale-IsValid r xs v) (count-drop_stale_own r xs))
]
  where
    locked :
        IsValid (drop_stale r xs)
        → count
            (is_same_expedition r.owner_steam_id r.master_lobby_id r.expedition_lobby_id)
            (drop_stale r xs)
          ≡ count (is_target r) (drop_stale r xs)
        → IsValid (store_at r (drop_stale r xs) (choose_target r (drop_stale r xs))).table
    locked w own =
        let (lt, h) = choose-cases r (drop_stale r xs) (omega (arith, w.size)) in
        elim (table-store_at r (drop_stale r xs) (choose_target r (drop_stale r xs))) [
          | inl same ↦ rw same w
          | inr set ↦ rw set (
              set-IsValid r (drop_stale r xs) (choose_target r (drop_stale r xs))
                (fresh r
                  (get_or (drop_stale r xs) (choose_target r (drop_stale r xs)) empty_snapshot))
                w lt (is_target-fresh r _)
                (elim h [ inl (f, t) ↦ inl t | inr none_yet ↦ inr (omega (arith, own, none_yet)) ]))
        ]
