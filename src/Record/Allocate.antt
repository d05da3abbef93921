-- ===== src/Record/Allocate.antt =====
-- `AllocateActiveReconnectRecordBySteamId`: promotion, refusal, and what it leaves alone.
use revenant_fix.Prelude.{
  false, ℕ, ◌<◌, ◌≡◌, ◌≢◌, ◌↔◌, ◌⊎◌, refl, ap, ◌∙◌, true, Option, none, some, length, get_or, set,
  arith, count, find_elem, find-cases, find_elem-some, count-set, find_elem-set, count-pos,
  count-zero-find, find_elem_unique, length-set, inl, inr, get_or-set_self, count-shift_out,
  find_elem-shift_out, length-shift_out, shift_out,
}
use revenant_fix.Record.{Entry, empty_entry}
use revenant_fix.Record.Cache.{
  Cache, has, is_free, promoted, find_active, find_inactive, first_free_active, remove_inactive_at,
  allocate_active, next32,
}
use revenant_fix.Record.Inv.{IsValid}

-- The cache after a promotion of inactive entry `j` to the free place `slot`.
abbrev promote : Cache → ℕ → ℕ → Cache
promote c slot j = record c {
  active = set c.active slot (promoted (get_or c.inactive j empty_entry));
  inactive = shift_out c.inactive j empty_entry;
  generation = next32 c.generation;
}

-- The outcomes of the allocation: present, promoted, a free place, or a full table.
allocate-cases :
    (c : Cache) (id : ℕ)
    → IsValid c
    → id ≢ 0
    → (allocate_active c id).1 ≡ c
      ⊎ ((slot : ℕ) × (j : ℕ) × (slot < length c.active)
          × (is_free (get_or c.active slot empty_entry) ≡ true)
          × (j < length c.inactive)
          × (has id (get_or c.inactive j empty_entry) ≡ true)
          × (allocate_active c id ≡ (some slot, promote c slot j)))
unfolding allocate_active find_active find_inactive first_free_active remove_inactive_at
allocate-cases c id v z = elim (find-cases (has id) c.active empty_entry) [
  | inr (i, f, lt, t) ↦ inl (ground arith)
  | inl (f, k) ↦ elim (find-cases (has id) c.inactive empty_entry) [
    | inl (g, l) ↦ inl (ground arith)
    | inr (j, g, lt, t) ↦ elim (find-cases is_free c.active empty_entry) [
      | inl (h, m) ↦ inl (ground arith)
      | inr (slot, h, below, free) ↦
          inr (slot, j, below, free, lt, t, ground (arith, v.inactive_size))
    ]
  ]
]

promote-IsValid :
    (c : Cache) (id slot j : ℕ)
    → IsValid c
    → slot < length c.active
    → is_free (get_or c.active slot empty_entry) ≡ true
    → j < length c.inactive
    → IsValid (promote c slot j)
promote-IsValid c id slot j v below free lt = record {
  active_size =
      omega (
        arith,
        v.active_size,
        length-set c.active slot (promoted (get_or c.inactive j empty_entry)),
      );
  inactive_size = omega (arith, v.inactive_size, length-shift_out c.inactive j empty_entry);
  once = λ q k.
      let old = v.once q k in
      let more =
        count-set (has q) c.active slot (promoted (get_or c.inactive j empty_entry)) empty_entry
          below in
      let gone = count-shift_out (has q) c.inactive j empty_entry lt in ground arith;
}

-- An allocation keeps the invariant.
pub allocate_active-IsValid :
    (c : Cache) (id : ℕ) → IsValid c → id ≢ 0 → IsValid (allocate_active c id).1
allocate_active-IsValid c id v z = elim (allocate-cases c id v z) [
  | inl same ↦ rw same v
  | inr (slot, j, below, free, lt, t, e) ↦ rw e (promote-IsValid c id slot j v below free lt)
]

-- An allocation never evicts: the entries of every other player stay in their tables, unchanged.
pub find-allocate_ne :
    (c : Cache) (id q : ℕ)
    → IsValid c
    → id ≢ 0
    → q ≢ id
    → (find_elem (has q) (allocate_active c id).1.active ≡ find_elem (has q) c.active)
      × (find_elem (has q) (allocate_active c id).1.inactive ≡ find_elem (has q) c.inactive)
find-allocate_ne c id q v z h = elim (allocate-cases c id v z) [
  | inl same ↦ rw same (refl, refl)
  | inr (slot, j, below, free, lt, t, e) ↦ rw e (
    find_elem-set (has q) c.active slot (promoted (get_or c.inactive j empty_entry)) empty_entry
        (ground arith) (ground arith),
    find_elem-shift_out (has q) c.inactive j empty_entry refl (ground arith),
  )
]

-- A player's inactive entry is promoted if there is a free place: it leaves the inactive table and
-- stands in the returned place of the active one, no longer marked inactive and without the time at
-- which it became so, its other fields unchanged.
pub allocate_active-promotes :
    (c : Cache) (id : ℕ) (e : Entry)
    → IsValid c
    → id ≢ 0
    → find_elem (has id) c.inactive ≡ some e
    → first_free_active c ≢ none
    → ((slot : ℕ) × ((allocate_active c id).0 ≡ some slot)
        × (get_or (allocate_active c id).1.active slot empty_entry
            ≡ record e { is_inactive = false; inactive_since_ms = 0 }))
      × (find_elem (has id) (allocate_active c id).1.active
          ≡ some (record e { is_inactive = false; inactive_since_ms = 0 }))
      × (find_elem (has id) (allocate_active c id).1.inactive ≡ none)
unfolding allocate_active find_active find_inactive first_free_active remove_inactive_at
allocate_active-promotes c id e v z h free =
    let (j, g, lt, at, t) = find_elem-some (has id) c.inactive empty_entry e h in
    let one = count-pos (has id) c.inactive j empty_entry lt (rw at t) in
    elim (find-cases (has id) c.active empty_entry) [
      | inr (i, f, below, u) ↦
          absurd (omega (arith, v.once id z, count-pos (has id) c.active i empty_entry below u))
      | inl (f, k) ↦ elim (find-cases is_free c.active empty_entry) [
        | inl (m, l) ↦ absurd (free m)
        | inr (slot, m, below, u) ↦
            let new = get_or c.inactive j empty_entry in
            let result : allocate_active c id ≡ (some slot, promote c slot j) =
              ground (arith, v.inactive_size) in
            let there = get_or-set_self c.active slot (promoted new) empty_entry below in
            rw result (outcome j slot below u lt at t there k)
      ]
    ]
  where
    outcome :
        (j slot : ℕ)
        → slot < length c.active
        → is_free (get_or c.active slot empty_entry) ≡ true
        → j < length c.inactive
        → get_or c.inactive j empty_entry ≡ e
        → has id e ≡ true
        → get_or (promote c slot j).active slot empty_entry
          ≡ promoted (get_or c.inactive j empty_entry)
        → count (has id) c.active ≡ 0
        → ((s : ℕ) × (◌≡◌ {A = Option ℕ} (some slot) (some s))
            × (get_or (promote c slot j).active s empty_entry ≡ promoted e))
          × (find_elem (has id) (promote c slot j).active ≡ some (promoted e))
          × (find_elem (has id) (promote c slot j).inactive ≡ none)
    outcome j slot below u lt at t there k =
        let same : get_or (promote c slot j).active slot empty_entry ≡ promoted e =
          there ∙ ap (λ x. promoted x) at in
        let old = v.once id z in
        let counted =
          count-set (has id) c.active slot (promoted (get_or c.inactive j empty_entry)) empty_entry
            below in
        let gone = count-shift_out (has id) c.inactive j empty_entry lt in
        let valid : has id (get_or c.inactive j empty_entry) ≡ true = rw at t in
        (
          (slot, refl, same),
          find_elem_unique (has id) (promote c slot j).active slot empty_entry
                (omega (
                  arith,
                  below,
                  length-set c.active slot (promoted (get_or c.inactive j empty_entry)),
                ))
                (rw same t) (ground arith)
              ∙ ap some same,
          count-zero-find (has id) (promote c slot j).inactive (ground arith),
        )

-- The allocation fails exactly if the player has no active entry and every active place is taken.
pub allocate_active-none :
    (c : Cache) (id : ℕ)
    → IsValid c
    → id ≢ 0
    → ((allocate_active c id).0 ≡ none)
      ↔ ((count (has id) c.active ≡ 0) × (count is_free c.active ≡ 0))
unfolding allocate_active find_active find_inactive first_free_active
allocate_active-none c id v z = elim (find-cases (has id) c.active empty_entry) [
  | inr (i, f, lt, t) ↦ let one = count-pos (has id) c.active i empty_entry lt t in ground arith
  | inl (f, k) ↦ elim (find-cases is_free c.active empty_entry) [
    | inl (g, l) ↦ ground arith
    | inr (i, g, lt, t) ↦ let one = count-pos is_free c.active i empty_entry lt t in ground arith
  ]
]
