-- ===== src/Reward/Survive.antt =====
-- How long a reward that was put in a new place stays in the ring.
use revenant_fix.Prelude.{
  ℕ, suc, ◌+◌, ◌-◌, ◌%◌, ◌^◌, ◌≤◌, ◌<◌, ◌≡◌, ◌≢◌, refl, true, List, [], ◌∷◌, length, get_or, set,
  arith, find-cases, find_index_hit, get_or-set_self, get_or-set_ne, find_index, none, inl, inr,
  some, length-set, ℕ_discrete, zero,
}
use revenant_fix.Reward.{
  Request, blank, request_slots, request_ttl_ms, Ring, has_id, is_recent, remember, has_recent,
}

-- Calls of `remember`, each a reward and its time.
abbrev pub remembers : Ring → List (ℕ × ℕ) → Ring
remembers r [] = r
remembers r ((id, now) ∷ calls) = remembers (remember r id now) calls

abbrev pub TimesWithin : ℕ → ℕ → List (ℕ × ℕ) → Type 0
TimesWithin low high [] = Unit
TimesWithin low high ((id, now) ∷ calls) = (low ≤ now) × (now ≤ high) × TimesWithin low high calls

-- The reward stands in place `i` with a time in the range, and the cursor reaches that place only
-- after `k` more new rewards.
record Holds (r : Ring) (id low high i k : ℕ) : Type 0 where
  size : length r.requests ≡ request_slots
  place : i < request_slots
  named : (get_or r.requests i blank).reward_id ≡ id
  after : low ≤ (get_or r.requests i blank).tick
  before : (get_or r.requests i blank).tick ≤ high
  ahead : (r.cursor + k) % request_slots ≡ i

Holds-remember :
    (r : Ring) (id low high i k q now : ℕ)
    → Holds r id low high i (suc k)
    → suc k < request_slots
    → low ≤ now
    → now ≤ high
    → (m : ℕ) × (k ≤ m) × (m < request_slots) × Holds (remember r q now) id low high i m
unfolding remember
Holds-remember r id low high i k q now h small from to =
    elim (find-cases (has_id q) r.requests blank) [
      | inl (e, c) ↦
          let ne : r.cursor % request_slots ≢ i = omega (arith, h.ahead, h.place) in
          let kept =
            get_or-set_ne r.requests (r.cursor % request_slots) i
              (record { reward_id = q; tick = now }) blank ne in
          (
            k,
            omega arith,
            omega arith,
            rw (e, remember)
                (record {
                  size = omega (
                    arith,
                    h.size,
                    length-set r.requests (r.cursor % request_slots)
                        (record { reward_id = q; tick = now }),
                  );
                  place = h.place;
                  named = rw kept h.named;
                  after = rw kept h.after;
                  before = rw kept h.before;
                  ahead = omega (arith, h.ahead);
                }),
          )
      | inr (j, e, lt, t) ↦
          let new : Request = record (get_or r.requests j blank) { tick = now } in
          (
            suc k,
            omega arith,
            small,
            rw (e, remember)
                (elim (ℕ_discrete j i) [
                  | yes p ↦ refreshed j e lt p
                  | no p ↦
                      let kept = get_or-set_ne r.requests j i new blank p in
                      record {
                        size = omega (arith, h.size, length-set r.requests j new);
                        place = h.place;
                        named = rw kept h.named;
                        after = rw kept h.after;
                        before = rw kept h.before;
                        ahead = h.ahead;
                      }
                ]),
          )
    ]
  where
    refreshed :
        (j : ℕ)
        → find_index (has_id q) r.requests ≡ some j
        → j < length r.requests
        → j ≡ i
        → Holds
            (record r {
              requests = set r.requests j (record (get_or r.requests j blank) { tick = now });
            })
            id
            low
            high
            i
            (suc k)
    refreshed j e lt p =
        let new : Request = record (get_or r.requests i blank) { tick = now } in
        let self = get_or-set_self r.requests i new blank (omega (arith, h.size, h.place)) in
        rw p (record {
          size = omega (arith, h.size, length-set r.requests i new);
          place = h.place;
          named = rw self h.named;
          after = rw self from;
          before = rw self to;
          ahead = h.ahead;
        })

Holds-remembers :
    (calls : List (ℕ × ℕ)) (r : Ring) (id low high i k : ℕ)
    → Holds r id low high i k
    → k < request_slots
    → length calls ≤ k
    → TimesWithin low high calls
    → (m : ℕ) × Holds (remembers r calls) id low high i m
Holds-remembers [] r id low high i k h s l t = (k, h)
Holds-remembers ((q, now) ∷ calls) r id low high i zero h s l t = absurd (omega arith)
Holds-remembers ((q, now) ∷ calls) r id low high i (suc k) h s l t =
    let (m, ge, small, h') = Holds-remember r id low high i k q now h s t.0 t.1 in
    Holds-remembers calls (remember r q now) id low high i m h' small (omega arith) t.2

remember-Holds :
    (r : Ring) (id now high : ℕ)
    → length r.requests ≡ request_slots
    → find_index (has_id id) r.requests ≡ none
    → now ≤ high
    → Holds (remember r id now) id now high (r.cursor % request_slots) 15
unfolding remember
remember-Holds r id now high n new le =
    let self =
      get_or-set_self r.requests (r.cursor % request_slots) (record { reward_id = id; tick = now })
        blank (omega (arith, n)) in
    rw (new, remember)
      (record {
        size = omega (
          arith,
          n,
          length-set r.requests (r.cursor % request_slots) (record { reward_id = id; tick = now }),
        );
        place = omega arith;
        named = rw self refl;
        after = rw self (omega arith);
        before = rw self le;
        ahead = omega arith;
      })

-- A reward that was not in the ring and is remembered stays recent through any 15 further calls,
-- whatever they remember, while its time has not run out.
pub has_recent-remembers :
    (r : Ring) (id now later : ℕ) (calls : List (ℕ × ℕ))
    → length r.requests ≡ request_slots
    → find_index (has_id id) r.requests ≡ none
    → now ≢ 0
    → now ≤ later
    → later < 2 ^ 64
    → later - now ≤ request_ttl_ms
    → length calls ≤ 15
    → TimesWithin now later calls
    → has_recent (remembers (remember r id now) calls) id later ≡ true
unfolding has_recent
has_recent-remembers r id now later calls n new z le lt ttl few t =
    let (m, h) =
      Holds-remembers calls (remember r id now) id now later (r.cursor % request_slots) 15
        (remember-Holds r id now later n new le) (omega arith) few t in
    find_index_hit (is_recent id later) (remembers (remember r id now) calls).requests
      (r.cursor % request_slots) blank (omega (arith, h.size))
      (ground (arith, h.named, h.after, h.before))
