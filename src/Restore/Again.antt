-- ===== src/Restore/Again.antt =====
-- A restore that is pinned stays the restore of its attempt: `PinBhrcFullPgdRestoreSnapshotForAttempt`
-- of src/reconnect_fix.cpp, called again.
use revenant_fix.Prelude.{
  ℕ, ◌≡◌, ◌<◌, ◌⊎◌, refl, ap, ◌∙◌, true, false, ◌&&◌, ◌||◌, not, none, some, List, ltb, leb, ◌==◌,
  arith, Bool-cases, Option-cases, inl, inr, find_index, find_elem, find-cases, find_elem-none,
  count, count-le, find_index-set, find_index-set_new, find_elem-find_index, get_or-set_self,
  none≢some, some-injective, get_or, set, length,
}
use revenant_fix.Pgd.{SnapshotKey, HotSnapshot}
use revenant_fix.Admission.{Attempt, empty_attempt}
use revenant_fix.Admission.Table.{is_same_tuple}
use revenant_fix.Transfer.Send.{is_same_attempt_identity}
use revenant_fix.Restore.{Pinned, empty_pinned, State}
use revenant_fix.Restore.Table.{
  is_pinned_for, is_own, candidate, is_snapshot_of, choose_place, pinned_at, named, install,
  PinClock, pin_at, is_pinnable, pin,
}
use revenant_fix.Restore.Pin.{IsKeyOf, candidate_lem}

-- An attempt names its snapshot as a whole, or not at all.
abbrev pub IsNamed : Attempt → Type 0
IsNamed a =
    a.full_pgd_snapshot_revision ≡ 0
    → (a.full_pgd_codec_version ≡ 0)
      × (a.full_pgd_payload_size ≡ 0)
      × (a.full_pgd_snapshot_hash32 ≡ 0)

own_new :
    (a : Attempt) (key : SnapshotKey) (bytes : List ℕ)
    → IsKeyOf a key
    → is_own (named key a) (pinned_at a key bytes) ≡ true
unfolding is_own is_pinned_for
own_new a key bytes (owner, master, expedition, seq) = ground arith

-- The named attempt has no restore that the attempt did not have.
own_named :
    (a : Attempt) (key : SnapshotKey) (p : Pinned)
    → IsNamed a
    → (a.full_pgd_snapshot_revision == 0 || is_snapshot_of a key) ≡ true
    → is_own (named key a) p ≡ true
    → is_own a p ≡ true
unfolding is_own is_pinned_for is_snapshot_of
own_named a key p n h t = elim (Bool-cases (a.full_pgd_snapshot_revision == 0)) [
  | inl z ↦ let (codec, size, hash) = n (ground arith) in ground arith
  | inr z ↦ ground arith
]

find_index-own :
    (a : Attempt) (ps : List Pinned)
    → find_elem (is_own a) ps ≡ none
    → find_index (is_own a) ps ≡ none
find_index-own a ps h = elim (find-cases (is_own a) ps empty_pinned) [
  | inl (f, c) ↦ f
  | inr (i, f, lt, t) ↦ absurd (none≢some h (find_elem-find_index (is_own a) ps empty_pinned i f))
]

-- What a pinned restore leaves: its attempt keeps its place, and finds the restore.
record IsKept (a : Attempt) (j : ℕ) (key : SnapshotKey) (s : State) (t : State) : Type 0 where
  place :
      find_index (λ current. is_same_attempt_identity current a) t.attempts
      ≡ find_index (λ current. is_same_attempt_identity current a) s.attempts
  expires :
      (get_or t.attempts j empty_attempt).expires_tick_ms
      ≡ (get_or s.attempts j empty_attempt).expires_tick_ms
  restore : Pinned
  found : find_elem (is_own (get_or t.attempts j empty_attempt)) t.pinned ≡ some restore
  same : restore.key ≡ key

no_own_named :
    (live : Attempt) (k : SnapshotKey) (ps : List Pinned)
    → IsNamed live
    → (live.full_pgd_snapshot_revision == 0 || is_snapshot_of live k) ≡ true
    → find_elem (is_own live) ps ≡ none
    → count (is_own (named k live)) ps ≡ 0
no_own_named live k ps n t free =
    let le = count-le (is_own (named k live)) (is_own live) (λ p. own_named live k p n t) ps in
    omega (arith, le, find_elem-none (is_own live) ps free)

installed-IsKept :
    (a : Attempt) (j i : ℕ) (key k : SnapshotKey) (bytes : List ℕ) (s : State)
    → j < length s.attempts
    → i < length s.pinned
    → IsKeyOf (get_or s.attempts j empty_attempt) k
    → k ≡ key
    → count (is_own (named k (get_or s.attempts j empty_attempt))) s.pinned ≡ 0
    → IsKept a j key s (record s {
      attempts = set s.attempts j (named k (get_or s.attempts j empty_attempt));
      pinned = set s.pinned i (pinned_at (get_or s.attempts j empty_attempt) k bytes);
    })
unfolding is_same_attempt_identity is_same_tuple
installed-IsKept a j i key k bytes s lt li owned e none_own =
    let live = get_or s.attempts j empty_attempt in
    let new = pinned_at live k bytes in
    let at = get_or-set_self s.attempts j (named k live) empty_attempt lt in
    let hit =
      find_index-set_new (is_own (named k live)) s.pinned i new none_own li
        (own_new live k bytes owned) in
    record {
      place =
          find_index-set (λ current. is_same_attempt_identity current a) s.attempts j (named k live)
            empty_attempt refl;
      expires = ap (λ x. x.expires_tick_ms) at;
      restore = new;
      found = rw at (
          find_elem-find_index (is_own (named k live)) (set s.pinned i new) empty_pinned i hit
          ∙ ap some (get_or-set_self s.pinned i new empty_pinned li));
      same = e;
    }

some_key : {k key : SnapshotKey} → some k ≡ some key → k ≡ key
some_key h = some-injective h

install-IsKept :
    (a : Attempt) (now j : ℕ) (key k : SnapshotKey) (bytes : List ℕ) (s : State)
    → j < length s.attempts
    → IsKeyOf (get_or s.attempts j empty_attempt) k
    → IsNamed (get_or s.attempts j empty_attempt)
    → find_elem (is_own (get_or s.attempts j empty_attempt)) s.pinned ≡ none
    → (install now j k bytes s).0 ≡ some key
    → IsKept a j key s (install now j k bytes s).1
unfolding install choose_place
install-IsKept a now j key k bytes s lt owned n free h =
    let live = get_or s.attempts j empty_attempt in
    elim (Bool-cases (
      ltb now live.expires_tick_ms
      && (live.full_pgd_snapshot_revision == 0 || is_snapshot_of live k))) [
        | inr f ↦ absurd (none≢some (rw (f, install) refl) h)
        | inl t ↦
            let no_own = find_index-own live s.pinned free in
            elim (find-cases (λ p. not (Pinned.valid p)) s.pinned empty_pinned) [
              | inl (f, c) ↦ absurd (none≢some (rw (t, install, no_own, choose_place, f) refl) h)
              | inr (i, f, li, ti) ↦
                  let key_same = some_key (rw (t, install, no_own, choose_place, f) at h) in
                  rw (t, no_own, f)
                    (installed-IsKept a j i key k bytes s lt li owned key_same
                      (no_own_named live k s.pinned n (ground arith) free))
            ]
      ]

pin_at-IsKept :
    (a : Attempt) (c : PinClock) (j : ℕ) (key : SnapshotKey) (s : State)
    → j < length s.attempts
    → IsNamed (get_or s.attempts j empty_attempt)
    → (pin_at c j s).0 ≡ some key
    → IsKept a j key s (pin_at c j s).1
unfolding pin_at
pin_at-IsKept a c j key s lt n h =
    let current = get_or s.attempts j empty_attempt in
    elim (Bool-cases (leb current.expires_tick_ms c.second)) [
      | inl t ↦ absurd (none≢some (rw (t, pin_at) refl) h)
      | inr f ↦ elim (Option-cases (find_elem (is_own current) s.pinned)) [
        | inr (p, g) ↦
            rw (f, g)
              (record {
                place = refl;
                expires = refl;
                restore = p;
                found = g;
                same = some-injective (rw (f, pin_at, g) at h);
              })
        | inl g ↦ elim (Option-cases (candidate current s)) [
          | inl q ↦ absurd (none≢some (rw (f, pin_at, g, q) refl) h)
          | inr ((k, bytes), q) ↦
              let owned = (candidate_lem current s k bytes q).0 in
              rw (f, g, q)
                (install-IsKept a c.third j key k bytes s lt owned n g (rw (f, pin_at, g, q) at h))
        ]
      ]
    ]

pin_at-kept :
    (a : Attempt) (d : PinClock) (j : ℕ) (key : SnapshotKey) (s t : State)
    → IsKept a j key s t
    → d.second < (get_or s.attempts j empty_attempt).expires_tick_ms
    → pin_at d j t ≡ (some key, t)
unfolding pin_at
pin_at-kept a d j key s t k h =
    let live : leb (get_or t.attempts j empty_attempt).expires_tick_ms d.second ≡ false =
      rw k.expires (ground arith) in
    rw (live, k.found, k.same) refl

other_snapshots :
    (a : Attempt) (j : ℕ) (key : SnapshotKey) (s t : State) (snapshots : List HotSnapshot)
    → IsKept a j key s t
    → IsKept a j key s (record t { snapshots = snapshots })
other_snapshots a j key s t snapshots k = record {
  place = k.place;
  expires = k.expires;
  restore = k.restore;
  found = k.found;
  same = k.same;
}

pinnable_again :
    (now later : ℕ) (a : Attempt)
    → is_pinnable now a ≡ true
    → later < a.expires_tick_ms
    → is_pinnable later a ≡ true
unfolding is_pinnable
pinnable_again now later a h k = ground arith

pin_found :
    (c : PinClock) (a : Attempt) (s : State) (j : ℕ)
    → is_pinnable c.first a ≡ true
    → find_index (λ current. is_same_attempt_identity current a) s.attempts ≡ some j
    → pin c a s ≡ pin_at c j s
unfolding pin
pin_found c a s j t f = rw (t, f) refl

pub pin-cases :
    (c : PinClock) (a : Attempt) (s : State)
    → (pin c a s ≡ (none, s))
      ⊎ ((j : ℕ) × (is_pinnable c.first a ≡ true)
          × (find_index (λ current. is_same_attempt_identity current a) s.attempts ≡ some j)
          × (j < length s.attempts)
          × (is_same_attempt_identity (get_or s.attempts j empty_attempt) a ≡ true)
          × (pin c a s ≡ pin_at c j s))
unfolding pin
pin-cases c a s = elim (Bool-cases (is_pinnable c.first a)) [
  | inr f ↦ inl (rw f refl)
  | inl t ↦
      elim (find-cases (λ current. is_same_attempt_identity current a) s.attempts empty_attempt) [
        | inl (f, none_of) ↦ inl (rw (t, f) refl)
        | inr (j, f, lt, same) ↦ inr (j, t, f, lt, same, rw (t, f) refl)
      ]
]

-- Pinning again while the attempt lives returns the same key and changes nothing, whatever became of
-- the hot snapshots in between: if a call succeeds, each attempt of the table names its snapshot as a
-- whole or not at all, and neither the argument nor the attempt in the table has expired by the
-- second call, the second call succeeds with the key of the first one and leaves all as it is.
pub pin-pin :
    (c d : PinClock) (a : Attempt) (s : State) (key : SnapshotKey) (snapshots : List HotSnapshot)
    → (pin c a s).0 ≡ some key
    → ((j : ℕ) → IsNamed (get_or s.attempts j empty_attempt))
    → d.first < a.expires_tick_ms
    → ((j : ℕ)
        → j < length s.attempts
        → is_same_attempt_identity (get_or s.attempts j empty_attempt) a ≡ true
        → d.second < (get_or s.attempts j empty_attempt).expires_tick_ms)
    → pin d a (record (pin c a s).1 { snapshots = snapshots })
      ≡ (some key, record (pin c a s).1 { snapshots = snapshots })
pin-pin c d a s key snapshots h n live live_at = elim (pin-cases c a s) [
  | inl e ↦ absurd (none≢some refl (rw e at h))
  | inr (j, t, f, lt, same, e) ↦
      let k = pin_at-IsKept a c j key s lt (n j) (rw e at h) in
      let u : State = record (pin_at c j s).1 { snapshots = snapshots } in
      rw e (
        pin_found d a u j (pinnable_again c.first d.first a t live) (k.place ∙ f)
        ∙ pin_at-kept a d j key s u (other_snapshots a j key s (pin_at c j s).1 snapshots k)
            (live_at j lt same))
]
