-- ===== src/Restore/Clear.antt =====
-- What the functions of src/reconnect_fix.cpp that clear pinned restores leave.
use revenant_fix.Prelude.{
  ℕ, ◌≡◌, ◌≢◌, refl, Bool, true, false, ◌||◌, not, none, List, [], ◌∷◌, ◌==◌, arith, Bool-cases,
  inl, inr, find_elem,
}
use revenant_fix.Admission.{Attempt}
use revenant_fix.Restore.{Pinned, empty_pinned}
use revenant_fix.Restore.Table.{
  is_pinned_for, of_serial, of_peer, is_own, is_copied, reset_if, clear_for_serial, clear_for_peer,
  copy_pinned,
}

-- A search that passes by what is cleared does not notice.
find_elem-reset_if :
    (r q : Pinned → Bool)
    → r empty_pinned ≡ false
    → ((p : Pinned) → q p ≡ true → r p ≡ false)
    → (ps : List Pinned) → find_elem r (reset_if q ps) ≡ find_elem r ps
unfolding find_elem reset_if
find_elem-reset_if r q h k [] = refl
find_elem-reset_if r q h k (p ∷ ps) = elim (Bool-cases (q p)) [
  | inl t ↦ rw (t, h, k p t) (find_elem-reset_if r q h k ps)
  | inr f ↦ rw (f, find_elem-reset_if r q h k ps) refl
]

-- A search for what is cleared finds nothing.
find_elem-reset_all :
    (r q : Pinned → Bool)
    → r empty_pinned ≡ false
    → ((p : Pinned) → q p ≡ false → r p ≡ false)
    → (ps : List Pinned) → find_elem r (reset_if q ps) ≡ none
unfolding find_elem reset_if
find_elem-reset_all r q h k [] = refl
find_elem-reset_all r q h k (p ∷ ps) = elim (Bool-cases (q p)) [
  | inl t ↦ rw (t, h) (find_elem-reset_all r q h k ps)
  | inr f ↦ rw (f, k p f) (find_elem-reset_all r q h k ps)
]

is_copied-empty : (a : Attempt) → is_copied a empty_pinned ≡ false
unfolding is_copied is_own is_pinned_for
is_copied-empty a = refl

-- What a restore that is copied for an attempt agrees on.
is_copied_lem :
    (a : Attempt) (p : Pinned)
    → (p.valid ≡ false → is_copied a p ≡ false)
      × ((p.reservation_serial == a.reservation_serial) ≡ false → is_copied a p ≡ false)
      × ((p.steam_id == a.steam_id) ≡ false → is_copied a p ≡ false)
unfolding is_copied is_own is_pinned_for
is_copied_lem a p = (λ h. ground (arith, h), λ h. ground (arith, h), λ h. ground (arith, h))

copy_nothing :
    (a : Attempt) (ps : List Pinned) → find_elem (is_copied a) ps ≡ none → copy_pinned a ps ≡ none
unfolding copy_pinned
copy_nothing a ps h = elim (Bool-cases (not a.valid || a.reservation_serial == 0)) [
  | inl t ↦ rw t refl
  | inr f ↦ rw (f, h) refl
]

copy_same :
    (a : Attempt) (ps qs : List Pinned)
    → find_elem (is_copied a) ps ≡ find_elem (is_copied a) qs
    → copy_pinned a ps ≡ copy_pinned a qs
unfolding copy_pinned
copy_same a ps qs h = rw h refl

-- Clearing the restores of a serial leaves nothing to copy for an attempt with that serial, and changes
-- nothing for an attempt with another one; clearing those of a peer does the same for the attempts of
-- the peer and of others. The serial and the peer are not 0.
pub copy_pinned-clear :
    (a : Attempt) (ps : List Pinned) (serial peer : ℕ)
    → serial ≢ 0
    → peer ≢ 0
    → (a.reservation_serial ≡ serial → copy_pinned a (clear_for_serial serial ps) ≡ none)
      × (a.reservation_serial ≢ serial
          → copy_pinned a (clear_for_serial serial ps) ≡ copy_pinned a ps)
      × (a.steam_id ≡ peer → copy_pinned a (clear_for_peer peer ps) ≡ none)
      × (a.steam_id ≢ peer → copy_pinned a (clear_for_peer peer ps) ≡ copy_pinned a ps)
unfolding clear_for_serial clear_for_peer
copy_pinned-clear a ps serial peer hs hp =
    let zs : (serial == 0) ≡ false = ground (arith, hs) in
    let zp : (peer == 0) ≡ false = ground (arith, hp) in
    let c = is_copied-empty a in
    (
      λ e. rw zs (
          copy_nothing a (reset_if (of_serial serial) ps) (
            find_elem-reset_all (is_copied a) (of_serial serial) c
              (λ p h. ground (arith, h, e, is_copied_lem a p)) ps)),
      λ n. rw zs (
          copy_same a (reset_if (of_serial serial) ps) ps (
            find_elem-reset_if (is_copied a) (of_serial serial) c
              (λ p h. ground (arith, h, n, is_copied_lem a p)) ps)),
      λ e. rw zp (
          copy_nothing a (reset_if (of_peer peer) ps) (
            find_elem-reset_all (is_copied a) (of_peer peer) c
              (λ p h. ground (arith, h, e, is_copied_lem a p)) ps)),
      λ n. rw zp (
          copy_same a (reset_if (of_peer peer) ps) ps (
            find_elem-reset_if (is_copied a) (of_peer peer) c
              (λ p h. ground (arith, h, n, is_copied_lem a p)) ps)),
    )
