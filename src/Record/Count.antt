-- ===== src/Record/Count.antt =====
-- How the steps of a move change the inactive table.
use revenant_fix.Prelude.{
  ℕ, ◌+◌, ◌≤◌, ◌<◌, ◌≡◌, ◌≢◌, refl, ◌∙◌, Bool, false, none, some, length, get_or, arith, bit, count,
  find_index, find_elem, find-cases, count-set, count-shift_out, find_elem-set, find_elem-shift_out,
  get_or-set_self, get_or-shift_out_last, length-set, length-shift_out, shift_out, find-cases, inl,
  inr,
}
use revenant_fix.Record.{Entry, empty_entry}
use revenant_fix.Record.Cache.{
  Cache, has, is_free, inactive_slots, remove_inactive_at, release_oldest, drop_inactive,
  insert_inactive,
}

pub length-insert :
    (c : Cache) (e : Entry) → length (insert_inactive c e).inactive ≡ length c.inactive
unfolding insert_inactive release_oldest
length-insert c e = elim (find-cases is_free c.inactive empty_entry) [
  | inl (f, k) ↦
      rw (f, insert_inactive)
        (length-set (shift_out c.inactive 0 empty_entry) 2 e
          ∙ length-shift_out c.inactive 0 empty_entry)
  | inr (i, f, lt, t) ↦ rw (f, insert_inactive) (length-set c.inactive i e)
]

-- The entry stands in the table afterwards.
pub insert-place :
    (c : Cache) (e : Entry)
    → length c.inactive ≡ inactive_slots
    → (i : ℕ) × (i < inactive_slots) × (get_or (insert_inactive c e).inactive i empty_entry ≡ e)
unfolding insert_inactive release_oldest
insert-place c e n = elim (find-cases is_free c.inactive empty_entry) [
  | inl (f, k) ↦ (
    2,
    omega arith,
    rw (f, insert_inactive)
        (get_or-set_self (shift_out c.inactive 0 empty_entry) 2 e empty_entry
          (omega (arith, n, length-shift_out c.inactive 0 empty_entry))),
  )
  | inr (i, f, lt, t) ↦
      (i, omega (arith, n), rw (f, insert_inactive) (get_or-set_self c.inactive i e empty_entry lt))
]

pub count-insert-le :
    (c : Cache) (e : Entry) (q : ℕ)
    → length c.inactive ≡ inactive_slots
    → count (has q) (insert_inactive c e).inactive ≤ count (has q) c.inactive + bit (has q e)
unfolding insert_inactive release_oldest
count-insert-le c e q n = elim (find-cases is_free c.inactive empty_entry) [
  | inl (f, k) ↦
      rw (f, insert_inactive)
        (omega (
          arith,
          count-shift_out (has q) c.inactive 0 empty_entry (omega (arith, n)),
          count-set (has q) (shift_out c.inactive 0 empty_entry) 2 e empty_entry
              (omega (arith, n, length-shift_out c.inactive 0 empty_entry)),
        ))
  | inr (i, f, lt, t) ↦
      rw (f, insert_inactive) (omega (arith, count-set (has q) c.inactive i e empty_entry lt))
]

-- Whether a move into the inactive table takes the place of another player's entry.
abbrev pub displaces : Cache → ℕ → Bool
displaces c q = elim (find_index is_free c.inactive) [
  | none ↦ has q (get_or c.inactive 0 empty_entry)
  | some i ↦ false
]

-- Another player's entry is found as before.
pub find-insert_ne :
    (c : Cache) (e : Entry) (q : ℕ)
    → length c.inactive ≡ inactive_slots
    → has q e ≡ false
    → displaces c q ≡ false
    → find_elem (has q) (insert_inactive c e).inactive ≡ find_elem (has q) c.inactive
unfolding insert_inactive release_oldest
find-insert_ne c e q n h d = elim (find-cases is_free c.inactive empty_entry) [
  | inl (f, k) ↦
      let first : has q (get_or c.inactive 0 empty_entry) ≡ false = rw (f, displaces) at d in
      let last =
        get_or-shift_out_last c.inactive 0 2 empty_entry (omega (arith, n)) (omega (arith, n)) in
      rw (f, insert_inactive)
        (find_elem-set (has q) (shift_out c.inactive 0 empty_entry) 2 e empty_entry (rw last refl) h
          ∙ find_elem-shift_out (has q) c.inactive 0 empty_entry refl first)
  | inr (i, f, lt, t) ↦
      rw (f, insert_inactive) (find_elem-set (has q) c.inactive i e empty_entry (ground arith) h)
]

module _ (c : Cache) (id : ℕ) (n : length c.inactive ≡ inactive_slots) where
  pub length-drop_inactive : length (drop_inactive c id).inactive ≡ inactive_slots
  unfolding drop_inactive remove_inactive_at
  length-drop_inactive = elim (find-cases (has id) c.inactive empty_entry) [
    | inl (f, k) ↦ rw (f, drop_inactive) n
    | inr (i, f, lt, t) ↦
        rw (f, drop_inactive) (ground (arith, n, length-shift_out c.inactive i empty_entry))
  ]

  pub count-drop_self :
      count (has id) c.inactive ≤ 1 → count (has id) (drop_inactive c id).inactive ≡ 0
  unfolding drop_inactive remove_inactive_at
  count-drop_self u = elim (find-cases (has id) c.inactive empty_entry) [
    | inl (f, k) ↦ rw (f, drop_inactive) k
    | inr (i, f, lt, t) ↦
        let gone = count-shift_out (has id) c.inactive i empty_entry lt in
        rw (f, drop_inactive) (ground (arith, n))
  ]

  pub count-drop-le :
      (q : ℕ) → count (has q) (drop_inactive c id).inactive ≤ count (has q) c.inactive
  unfolding drop_inactive remove_inactive_at
  count-drop-le q = elim (find-cases (has id) c.inactive empty_entry) [
    | inl (f, k) ↦ rw (f, drop_inactive) (omega arith)
    | inr (i, f, lt, t) ↦
        let gone = count-shift_out (has q) c.inactive i empty_entry lt in
        rw (f, drop_inactive) (ground (arith, n))
  ]

  pub find-drop_ne :
      (q : ℕ)
      → q ≢ id
      → find_elem (has q) (drop_inactive c id).inactive ≡ find_elem (has q) c.inactive
  unfolding drop_inactive remove_inactive_at
  find-drop_ne q h = elim (find-cases (has id) c.inactive empty_entry) [
    | inl (f, k) ↦ rw (f, drop_inactive) refl
    | inr (i, f, lt, t) ↦
        let kept = find_elem-shift_out (has q) c.inactive i empty_entry refl (ground arith) in
        rw (f, drop_inactive) (ground (arith, n))
  ]
