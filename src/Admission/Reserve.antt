-- ===== src/Admission/Reserve.antt =====
-- `ReserveBhrcHostAdmissionAttempt`: who keeps an attempt, and who gets one.
use revenant_fix.Prelude.{
  ℕ, ◌≤◌, ◌<◌, ◌≡◌, ◌≢◌, ◌⊎◌, refl, sym, ap, ◌∙◌, Bool, true, ◌&&◌, none, some, ◌==◌, ltb, length,
  get_or, set, arith, find_elem, count, count-set, find_elem-set, find_elem_unique, length-set,
  get_or-set_self, Bool-cases, ℕ_discrete, none≢some, some-injective, inl, inr,
}
use revenant_fix.Admission.{Attempt, Reservation, Packet, Phase, Membership, empty_attempt}
use revenant_fix.Admission.Table.{
  Host, capacity, is_of, is_available, is_admissible, next_serial, new_attempt, inherit, reserve_at,
  reserve,
}
use revenant_fix.Admission.Choose.{choose-cases}

-- Six places, and one attempt at most for a peer.
pub record IsValid (h : Host) : Type 0 where
  pub size : length h.attempts ≡ capacity
  pub once : (q : ℕ) → count (is_of q) h.attempts ≤ 1

-- An attempt that still authorises its peer.
abbrev pub is_live : ℕ → ℕ → Attempt → Bool
is_live now q a = is_of q a && ltb now a.expires_tick_ms

pub inherit_of :
    (p n : Attempt) (q : ℕ)
    → (is_of q (inherit p n) ≡ is_of q n)
      × ((inherit p n).reservation_serial ≡ n.reservation_serial)
      × ((inherit p n).valid ≡ n.valid)
      × ((inherit p n).steam_id ≡ n.steam_id)
unfolding inherit
inherit_of p n q = ground arith

module _ (sender : ℕ) (packet : Packet) (phase : Phase) (membership : Membership) (now : ℕ)
    (h : Host) where
  -- What is written at a chosen place.
  abbrev pub admitted_at : ℕ → Attempt
  admitted_at i =
      inherit (get_or h.attempts i empty_attempt)
        (new_attempt sender packet phase membership now (next_serial h.reservation_counter))

  -- A request is refused and changes nothing, or its attempt is written at the sender's place or at
  -- an available one.
  pub reserve-cases :
      (reserve sender packet phase membership now h ≡ (none, h))
      ⊎ ((i : ℕ) × (reserve sender packet phase membership now h ≡ (
        some (record {
          replaced = (get_or h.attempts i empty_attempt).valid;
          slot_index = i;
          previous = get_or h.attempts i empty_attempt;
          admitted = admitted_at i;
        }),
        record h {
          attempts = set h.attempts i (admitted_at i);
          reservation_counter = next_serial h.reservation_counter;
        },
      ))
          × (i < length h.attempts)
          × ((is_of sender (get_or h.attempts i empty_attempt) ≡ true)
              ⊎ ((count (is_of sender) h.attempts ≡ 0)
                  × (is_available now (get_or h.attempts i empty_attempt) ≡ true))))
  unfolding reserve reserve_at
  reserve-cases = elim (Bool-cases (is_admissible sender packet phase membership)) [
    | inr f ↦ rw f (inl refl)
    | inl t ↦ elim (choose-cases sender now h.attempts) [
      | inl (f, a, b) ↦ rw (t, f) (inl refl)
      | inr (i, f, lt, place) ↦ rw (t, f) (inr (i, refl, lt, place))
    ]
  ]

  pub admitted-of : (i q : ℕ) → is_of q (admitted_at i) ≡ (sender == q)
  admitted-of i q = ground (
    arith,
    inherit_of (get_or h.attempts i empty_attempt)
        (new_attempt sender packet phase membership now (next_serial h.reservation_counter)) q,
  )

  -- A reservation keeps the table's size and one attempt at most for a peer.
  pub reserve-IsValid : IsValid h → IsValid (reserve sender packet phase membership now h).1
  reserve-IsValid v = elim reserve-cases [
    | inl e ↦ rw e v
    | inr (i, e, lt, place) ↦ rw e (record {
      size = omega (arith, length-set h.attempts i (admitted_at i), v.size);
      once = λ q. once_of i lt place q;
    })
  ]
    where
      once_of :
          (i : ℕ)
          → i < length h.attempts
          → (is_of sender (get_or h.attempts i empty_attempt) ≡ true)
            ⊎ ((count (is_of sender) h.attempts ≡ 0)
                × (is_available now (get_or h.attempts i empty_attempt) ≡ true))
          → (q : ℕ) → count (is_of q) (set h.attempts i (admitted_at i)) ≤ 1
      once_of i lt place q =
          let counted = count-set (is_of q) h.attempts i (admitted_at i) empty_attempt lt in
          let new = admitted-of i q in
          let old = v.once q in
          elim (ℕ_discrete sender q) [
            | no ne ↦ ground arith
            | yes p ↦ elim place [
              | inl own ↦ ground arith
              | inr (none_of, available) ↦
                  let nobody : count (is_of q) h.attempts ≡ 0 = rw (sym p) none_of in ground arith
            ]
          ]

  -- A reservation takes nothing from another peer: an attempt of theirs that has not expired is
  -- found as before, whether or not the request gets a place.
  pub reserve_ne-live :
      (q : ℕ)
      → q ≢ sender
      → find_elem (is_live now q) (reserve sender packet phase membership now h).1.attempts
        ≡ find_elem (is_live now q) h.attempts
  reserve_ne-live q ne = elim reserve-cases [
    | inl e ↦ rw e refl
    | inr (i, e, lt, place) ↦ rw e (
        find_elem-set (is_live now q) h.attempts i (admitted_at i) empty_attempt
          (elim place [ inl own ↦ ground arith | inr (a, b) ↦ ground arith ])
          (ground (arith, admitted-of i q)))
  ]

  -- The place, the reservation and the table of a request that is granted.
  pub reserve-granted :
      (r : Reservation) (h' : Host)
      → reserve sender packet phase membership now h ≡ (some r, h')
      → (i : ℕ) × (r ≡ record {
        replaced = (get_or h.attempts i empty_attempt).valid;
        slot_index = i;
        previous = get_or h.attempts i empty_attempt;
        admitted = admitted_at i;
      })
        × (h' ≡ record h {
          attempts = set h.attempts i (admitted_at i);
          reservation_counter = next_serial h.reservation_counter;
        })
        × (i < length h.attempts)
        × ((is_of sender (get_or h.attempts i empty_attempt) ≡ true)
            ⊎ ((count (is_of sender) h.attempts ≡ 0)
                × (is_available now (get_or h.attempts i empty_attempt) ≡ true)))
  reserve-granted r h' done = elim reserve-cases [
    | inl e ↦ absurd (none≢some refl (ap (λ x. x.0) (sym e ∙ done)))
    | inr (i, e, lt, place) ↦
        (i, some-injective (ap (λ x. x.0) (sym done ∙ e)), ap (λ x. x.1) (sym done ∙ e), lt, place)
  ]

  -- In a valid table, after a reservation that is granted, the sender's attempt is the one that was
  -- admitted; it stands in the place that the reservation names, under the new value of the counter.
  pub reserve-admits :
      (r : Reservation) (h' : Host)
      → IsValid h
      → reserve sender packet phase membership now h ≡ (some r, h')
      → (find_elem (is_of sender) h'.attempts ≡ some r.admitted)
        × (get_or h'.attempts r.slot_index empty_attempt ≡ r.admitted)
        × (r.admitted.reservation_serial ≡ h'.reservation_counter)
  reserve-admits r h' v done =
      let (i, of_r, of_h, lt, place) = reserve-granted r h' done in
      let written = get_or-set_self h.attempts i (admitted_at i) empty_attempt lt in
      let valid : IsValid h' = rw (ap (λ x. x.1) (sym done)) (reserve-IsValid v) in
      rw (of_r, of_h)
        (
          find_elem_unique (is_of sender) (set h.attempts i (admitted_at i)) i empty_attempt
                (omega (arith, length-set h.attempts i (admitted_at i)))
                (rw written (rw (admitted-of i sender) (ground arith)))
                (rw of_h at (valid.once sender))
              ∙ ap some written,
          written,
          (inherit_of (get_or h.attempts i empty_attempt)
              (new_attempt sender packet phase membership now (next_serial h.reservation_counter))
              0).1,
        )
