-- ===== src/Admission/Rollback.antt =====
-- `RollbackBhrcHostAdmissionAttempt` after a reservation, and after a second one.
use revenant_fix.Prelude.{
  ℕ, ◌<◌, ◌≡◌, ◌≢◌, refl, sym, ap, ◌∙◌, true, false, ◌&&◌, some, [], ◌∷◌, ◌==◌, ltb, leb, length,
  get_or, arith, find_elem, count-pos, find_elem-set, length-set, get_or-set_self, set-set,
  set-overwrite, place_unique, Bool-cases, inl, inr,
}
use revenant_fix.Admission.{Attempt, Reservation, Packet, Phase, Membership, empty_attempt}
use revenant_fix.Admission.Table.{
  Host, clear_pinned_restore_for_serial, capacity, is_of, next_serial, new_attempt, reserve,
  is_current, commit, rollback,
}
use revenant_fix.Admission.Reserve.{
  IsValid, is_live, admitted_at, admitted-of, inherit_of, reserve-granted, reserve-IsValid,
  reserve-admits,
}

-- The counter never gives one serial twice in a row.
next_serial_ne : (n : ℕ) → next_serial (next_serial n) ≢ next_serial n
unfolding next_serial
next_serial_ne n e = ground arith

module _ (sender : ℕ) (packet : Packet) (phase : Phase) (membership : Membership) (now : ℕ)
    (h : Host) where
  -- A granted reservation is the current one of its place.
  pub reserve-is_current :
      (r : Reservation) (h' : Host)
      → IsValid h
      → reserve sender packet phase membership now h ≡ (some r, h')
      → (leb capacity r.slot_index ≡ false) × (is_current r h' ≡ true)
  unfolding is_current
  reserve-is_current r h' v done =
      let (i, of_r, of_h, lt, place) =
        reserve-granted sender packet phase membership now h r h' done in
      let next = admitted_at sender packet phase membership now h i in
      rw (of_r, of_h, get_or-set_self h.attempts i next empty_attempt lt)
        (
          ground (arith, v.size),
          ground (
            arith,
            inherit_of (get_or h.attempts i empty_attempt)
                (new_attempt sender packet phase membership now (next_serial h.reservation_counter))
                0,
          ),
        )

  -- In a valid table, a reservation that is granted and then rolled back, with no other call between,
  -- leaves no trace among the attempts that have not expired: at the time of the rollback each peer has
  -- the attempt that it had before the request.
  pub rollback-reserve :
      (r : Reservation) (h' : Host) (later after q : ℕ)
      → IsValid h
      → reserve sender packet phase membership now h ≡ (some r, h')
      → find_elem (is_live later q) (rollback r later after h').0.attempts
        ≡ find_elem (is_live later q) h.attempts
  unfolding rollback
  rollback-reserve r h' later after q v done =
      let (i, of_r, of_h, lt, place) =
        reserve-granted sender packet phase membership now h r h' done in
      let (inside, current) = reserve-is_current r h' v done in
      let previous : Attempt = get_or h.attempts i empty_attempt in
      rw (inside, current, of_r, of_h)
        (elim (Bool-cases (previous.valid && ltb later previous.expires_tick_ms)) [
          | inl t ↦
              rw
                (
                  t,
                  set-set h.attempts i (admitted_at sender packet phase membership now h i)
                      empty_attempt,
                )
                refl
          | inr f ↦
              rw
                (
                  f,
                  set-overwrite h.attempts i (admitted_at sender packet phase membership now h i)
                      empty_attempt,
                )
                (find_elem-set (is_live later q) h.attempts i empty_attempt empty_attempt
                  (ground arith) refl)
        ])

  second_place :
      (packet' : Packet) (phase' : Phase) (membership' : Membership) (now' : ℕ) (r r' : Reservation)
      (h' h'' : Host)
      → IsValid h
      → reserve sender packet phase membership now h ≡ (some r, h')
      → reserve sender packet' phase' membership' now' h' ≡ (some r', h'')
      → (get_or h''.attempts r.slot_index empty_attempt).reservation_serial
        ≡ next_serial h'.reservation_counter
  second_place packet' phase' membership' now' r r' h' h'' v done done' =
      let (i, of_r, of_h, lt, place) =
        reserve-granted sender packet phase membership now h r h' done in
      let (j, of_r', of_h', lt', place') =
        reserve-granted sender packet' phase' membership' now' h' r' h'' done' in
      let next : Attempt = admitted_at sender packet phase membership now h i in
      let next' : Attempt = admitted_at sender packet' phase' membership' now' h' j in
      let valid : IsValid h' =
        rw (ap (λ x. x.1) (sym done)) (reserve-IsValid sender packet phase membership now h v) in
      let bound : i < length h'.attempts = rw of_h (omega (arith, length-set h.attempts i next)) in
      let mine : is_of sender (get_or h'.attempts i empty_attempt) ≡ true =
        rw
          (
            of_h,
            get_or-set_self h.attempts i next empty_attempt lt,
            admitted-of sender packet phase membership now h i sender,
          )
          (ground arith) in
      let same : j ≡ i = elim place' [
        | inl own ↦
            place_unique (is_of sender) h'.attempts j i empty_attempt (valid.once sender) lt' bound
              own mine
        | inr (none_of, available) ↦
            absurd (omega (arith, count-pos (is_of sender) h'.attempts i empty_attempt bound mine))
      ] in
      let written : get_or h''.attempts j empty_attempt ≡ next' =
        rw of_h' (get_or-set_self h'.attempts j next' empty_attempt lt') in
      let at_i : get_or h''.attempts i empty_attempt ≡ next' =
        ap (λ k. get_or h''.attempts k empty_attempt) (sym same) ∙ written in
      rw (of_r, at_i)
        (inherit_of (get_or h'.attempts j empty_attempt)
          (new_attempt sender packet' phase' membership' now' (next_serial h'.reservation_counter))
          0).1

  -- In a valid table, a second reservation that the same peer gets right after the first supersedes it:
  -- committing the first one fails, and
  -- rolling it back leaves the table as it is.
  pub reserve-supersedes :
      (packet' : Packet) (phase' : Phase) (membership' : Membership) (now' : ℕ) (r r' : Reservation)
      (h' h'' : Host) (phase'' : Phase) (later after : ℕ)
      → IsValid h
      → reserve sender packet phase membership now h ≡ (some r, h')
      → reserve sender packet' phase' membership' now' h' ≡ (some r', h'')
      → (commit r phase'' h''
          ≡ (false, h'', clear_pinned_restore_for_serial r.admitted.reservation_serial ∷ []))
        × ((rollback r later after h'').0 ≡ h'')
  unfolding commit rollback is_current
  reserve-supersedes packet' phase' membership' now' r r' h' h'' phase'' later after v done done' =
      let (inside, current) = reserve-is_current r h' v done in
      let placed = second_place packet' phase' membership' now' r r' h' h'' v done done' in
      let (found, at, serial) = reserve-admits sender packet phase membership now h r h' v done in
      let counted = counter r h' done in
      let stale : (get_or h''.attempts r.slot_index empty_attempt).reservation_serial
            == r.admitted.reservation_serial
          ≡ false =
        rw (placed, serial, counted) (ground (arith, next_serial_ne h.reservation_counter)) in
      rw (inside, stale) (ground arith)
    where
      counter :
          (r : Reservation) (h' : Host)
          → reserve sender packet phase membership now h ≡ (some r, h')
          → h'.reservation_counter ≡ next_serial h.reservation_counter
      counter r h' done =
          let (i, of_r, of_h, lt, place) =
            reserve-granted sender packet phase membership now h r h' done in
          ap (λ x. x.reservation_counter) of_h
