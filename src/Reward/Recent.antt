-- ===== src/Reward/Recent.antt =====
-- One call of the ring: what is recent after it.
use revenant_fix.Prelude.{
  ℕ, ◌-◌, ◌%◌, ◌^◌, ◌≤◌, ◌<◌, ◌≡◌, ◌≢◌, refl, leb, count-at, ℕ_discrete, true, false, List, [], ◌∷◌,
  length, get_or, arith, count, count-set, find-cases, get_or-set_self, is_some-find_index, inl,
  inr, length-set,
}
use revenant_fix.Reward.{
  Request, blank, request_slots, request_ttl_ms, Ring, has_id, is_recent, remember, has_recent,
  forget_from, forget,
}

pub length-remember :
    (r : Ring) (id now : ℕ) → length (remember r id now).requests ≡ length r.requests
unfolding remember
length-remember r id now = elim (find-cases (has_id id) r.requests blank) [
  | inl (e, c) ↦ rw (e, remember) (length-set r.requests _ _)
  | inr (i, e, h, t) ↦ rw (e, remember) (length-set r.requests i _)
]

-- No reward stands twice in the ring of sixteen; the identifier of a blank place is exempt.
pub record IsValid (r : Ring) : Type 0 where
  pub size : length r.requests ≡ request_slots
  pub once : (q : ℕ) → q ≢ 0xffff_ffff → count (has_id q) r.requests ≤ 1

-- After `remember` the reward stands in a place of the ring, with the new time.
pub placed :
    (r : Ring) (id now : ℕ)
    → length r.requests ≡ request_slots
    → (i : ℕ) × (i < length r.requests)
      × (get_or (remember r id now).requests i blank ≡ record { reward_id = id; tick = now })
unfolding remember
placed r id now n = elim (find-cases (has_id id) r.requests blank) [
  | inl (e, c) ↦ (
    r.cursor % request_slots,
    omega (arith, n),
    rw (e, remember) (get_or-set_self r.requests _ _ blank (omega (arith, n))),
  )
  | inr (i, e, h, t) ↦
      (i, h, rw (e, remember, get_or-set_self r.requests i _ blank h) (ground arith))
]

remember-once :
    (r : Ring) (id now q : ℕ)
    → IsValid r
    → q ≢ 0xffff_ffff
    → count (has_id q) (remember r id now).requests ≤ 1
unfolding remember
remember-once r id now q v k = elim (find-cases (has_id id) r.requests blank) [
  | inl (e, c) ↦
      let lt : r.cursor % request_slots < length r.requests = omega (arith, v.size) in
      let new : Request = record { reward_id = id; tick = now } in
      let old = v.once q k in
      let written = count-set (has_id q) r.requests (r.cursor % request_slots) new blank lt in
      rw (e, remember)
        (elim (ℕ_discrete q id) [
          | yes p ↦ let absent : count (has_id q) r.requests ≡ 0 = rw p c in ground arith
          | no p ↦ ground arith
        ])
  | inr (i, e, h, t) ↦
      let old = v.once q k in
      let written =
        count-set (has_id q) r.requests i (record (get_or r.requests i blank) { tick = now }) blank
          h in
      rw (e, remember) (ground arith)
]

-- `RememberLocalRewardDiscardRequest` never writes a reward twice.
pub remember-IsValid : (r : Ring) (id now : ℕ) → IsValid r → IsValid (remember r id now)
remember-IsValid r id now v = record {
  size = omega (arith, length-remember r id now, v.size);
  once = λ q k. remember-once r id now q v k;
}

-- A reward is recent from the moment it is remembered until its time has run out.
pub has_recent-remember :
    (r : Ring) (id now later : ℕ)
    → IsValid r
    → id ≢ 0xffff_ffff
    → now ≢ 0
    → now ≤ later
    → later < 2 ^ 64
    → has_recent (remember r id now) id later ≡ leb (later - now) request_ttl_ms
unfolding has_recent
has_recent-remember r id now later v k z le lt =
    let (i, h, e) = placed r id now v.size in
    let rs = (remember r id now).requests in
    let here : has_id id (get_or rs i blank) ≡ true = rw e (ground arith) in
    let counted =
      count-at (is_recent id later) (has_id id) (λ x t. ground arith) rs i blank
        (omega (arith, h, length-remember r id now)) here (remember-once r id now id v k) in
    rw (is_some-find_index (is_recent id later) rs, counted, e) (ground arith)

count-forget : (rs : List Request) (id now : ℕ) → count (is_recent id now) (forget_from rs id) ≡ 0
unfolding forget_from count
count-forget [] id now = refl
count-forget (r ∷ rs) id now = ground (arith, count-forget rs id now)

count-forget_ne :
    (rs : List Request) (id q now : ℕ)
    → q ≢ id
    → count (is_recent q now) (forget_from rs id) ≡ count (is_recent q now) rs
unfolding forget_from count
count-forget_ne [] id q now h = refl
count-forget_ne (r ∷ rs) id q now h = ground (arith, count-forget_ne rs id q now h)

-- `ForgetLocalRewardDiscardRequest` makes its reward not recent, at any time, and does not change
-- the answer for another.
pub has_recent-forget :
    (r : Ring) (id now q : ℕ)
    → q ≢ id
    → (has_recent (forget r id) id now ≡ false)
      × (has_recent (forget r id) q now ≡ has_recent r q now)
unfolding has_recent forget
has_recent-forget r id now q h = (
  rw
      (
        is_some-find_index (is_recent id now) (forget_from r.requests id),
        count-forget r.requests id now,
      )
      refl,
  rw
      (
        is_some-find_index (is_recent q now) (forget_from r.requests id),
        is_some-find_index (is_recent q now) r.requests,
        count-forget_ne r.requests id q now h,
      )
      refl,
)
