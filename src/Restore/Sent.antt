-- ===== src/Restore/Sent.antt =====
-- What a host hands to Steam in `AdvanceBhrcFullPgdHostRestoreDeliveries` of src/reconnect_fix.cpp.
use revenant_fix.Prelude.{
  ℕ, suc, zero, ◌+◌, ◌%◌, ◌^◌, ◌||◌, ◌≡◌, ◌<◌, refl, sym, Bool, true, false, not, Option, some,
  List, [], ◌∷◌, arith, ◌==◌, Bool-cases, Option-cases, inl, inr, find_elem, find_elem-some, get_or,
  length, none≢some, All, All-append, All-map,
}
use revenant_fix.Pgd.{SnapshotKey, chunks_of}
use revenant_fix.Admission.{Attempt, empty_attempt}
use revenant_fix.Transfer.{ChunkPacket, restore_delivery}
use revenant_fix.Transfer.Send.{Delivery, chunk_at, may_send, is_sendable, send_from, send}
use revenant_fix.Restore.{Pinned, empty_pinned, State}
use revenant_fix.Restore.Table.{is_own, is_copied, bytes_of, copy_pinned, named, pin}
use revenant_fix.Restore.Deliver.{
  DeliverClock, delivery_of, is_deliverable, send_pinned, send_restore, is_due, due_of,
  deliver_each, deliver_due,
}
use revenant_fix.Restore.Pin.{IsKeyOf, is_pinned_for-IsKeyOf, checked_lem}

-- A packet of a restore for an attempt: it goes to the player of the attempt, holds that player's own
-- data of the attempt's expedition, and names the attempt by its nonce and generation.
abbrev pub IsFor : Attempt → ChunkPacket → Type 0
IsFor a q =
    (q.target_steam_id ≡ a.steam_id)
    × (q.owner_steam_id ≡ a.steam_id)
    × (q.master_lobby_id ≡ a.master_lobby_id)
    × (q.expedition_lobby_id ≡ a.expedition_lobby_id)
    × (q.authority_commit_seq ≡ a.authority_commit_seq)
    × (q.request_nonce ≡ a.request_nonce)
    × (q.client_generation ≡ a.client_generation)
    × (q.purpose ≡ restore_delivery)

chunk-IsFor :
    (a : Attempt) (key : SnapshotKey) (bytes : List ℕ) (i : ℕ)
    → IsKeyOf a key
    → IsFor a (chunk_at (delivery_of a key bytes) i)
unfolding chunk_at
chunk-IsFor a key bytes i (owner, master, expedition, seq) =
    (refl, owner, master, expedition, seq, refl, refl, refl)

is_copied-IsKeyOf : (a : Attempt) (p : Pinned) → is_copied a p ≡ true → IsKeyOf a p.key
unfolding is_copied is_own
is_copied-IsKeyOf a p h = is_pinned_for-IsKeyOf true a p (ground arith)

copy_pinned-IsKeyOf :
    (a : Attempt) (ps : List Pinned) (key : SnapshotKey) (bytes : List ℕ)
    → copy_pinned a ps ≡ some (key, bytes)
    → IsKeyOf a key
unfolding copy_pinned
copy_pinned-IsKeyOf a ps key bytes h =
    elim (Bool-cases (not a.valid || a.reservation_serial == 0)) [
      | inl z ↦ absurd (none≢some (rw (z, copy_pinned) refl) h)
      | inr z ↦ elim (Option-cases (find_elem (is_copied a) ps)) [
        | inl f ↦ absurd (none≢some (rw (z, copy_pinned, f) refl) h)
        | inr (p, f) ↦
            let (i, fi, lt, e, t) = find_elem-some (is_copied a) ps empty_pinned p f in
            let (ke, be, ok) =
              checked_lem p.key key (bytes_of p) bytes (rw (z, copy_pinned, f) at h) in
            rw (sym ke) (is_copied-IsKeyOf a p t)
      ]
    ]

module _ (transport : ChunkPacket → Bool) where
  send_from-All :
      (P : ChunkPacket → Type 0) (seen : ℕ → List Attempt × ℕ) (d : Delivery)
      (guard : Option Attempt)
      → ((i : ℕ) → P (chunk_at d i))
      → (left i : ℕ) → All P (send_from transport seen d guard i left).1
  unfolding send_from
  send_from-All P seen d guard h zero i = tt
  send_from-All P seen d guard h (suc left) i = elim (Bool-cases (may_send d guard (seen i))) [
    | inr f ↦ rw f tt
    | inl t ↦ elim (Bool-cases (transport (chunk_at d i))) [
      | inr g ↦ rw (t, g) (h i, tt)
      | inl g ↦ rw (t, g) (h i, send_from-All P seen d guard h left (i + 1))
    ]
  ]

  pub send-All :
      (P : ChunkPacket → Type 0) (seen : ℕ → List Attempt × ℕ) (d : Delivery)
      (guard : Option Attempt)
      → ((i : ℕ) → P (chunk_at d i))
      → All P (send transport seen d guard).1
  unfolding send
  send-All P seen d guard h = elim (Bool-cases (is_sendable d)) [
    | inr f ↦ rw f tt
    | inl t ↦ rw t (send_from-All P seen d guard h (chunks_of d.key.payload_size % 2 ^ 16) 0)
  ]

  send_pinned-IsFor :
      (c : DeliverClock) (a : Attempt) (key : SnapshotKey) (s : State)
      → All (IsFor a) (send_pinned transport c a key s).packets
  unfolding send_pinned
  send_pinned-IsFor c a key s = elim (Option-cases (copy_pinned (named key a) s.pinned)) [
    | inl f ↦ rw (send_pinned, f) tt
    | inr ((copied, bytes), f) ↦
        rw (send_pinned, f)
          (send-All (IsFor a) (λ i. (s.attempts, c.seen i)) (delivery_of a copied bytes)
            (some (named key a))
            (λ i.
              chunk-IsFor a copied bytes i
                (copy_pinned-IsKeyOf (named key a) s.pinned copied bytes f)))
  ]

  send_restore-IsFor :
      (c : DeliverClock) (a : Attempt) (s : State)
      → All (IsFor a) (send_restore transport c a s).packets
  unfolding send_restore
  send_restore-IsFor c a s = elim (Bool-cases (is_deliverable c.start a)) [
    | inr f ↦ rw f tt
    | inl t ↦ elim (Option-cases (pin c.pins a s).0) [
      | inl g ↦ rw (t, g) tt
      | inr (key, g) ↦ rw (t, g) (send_pinned-IsFor c a key (pin c.pins a s).1)
    ]
  ]

  deliver_each-All :
      (Q : Attempt → Type 0) (clocks : ℕ → DeliverClock) (n : ℕ) (due : List Attempt) (s : State)
      → All Q due
      → All (λ q. (a : Attempt) × Q a × IsFor a q) (deliver_each transport clocks n due s).0
  unfolding deliver_each
  deliver_each-All Q clocks n [] s h = tt
  deliver_each-All Q clocks n (a ∷ rest) s (qa, h) =
      let one = send_restore transport (clocks n) a s in
      All-append (λ q. (a : Attempt) × Q a × IsFor a q) one.packets
        (deliver_each transport clocks (n + 1) rest one.state).0
        (All-map (IsFor a) (λ q. (a : Attempt) × Q a × IsFor a q) (λ q f. (a, qa, f)) one.packets
          (send_restore-IsFor (clocks n) a s))
        (deliver_each-All Q clocks (n + 1) rest one.state h)

-- An attempt that stands in the table and is due.
IsDue : ℕ → List Attempt → Attempt → Type 0
IsDue now xs a = (i : ℕ) × (i < length xs) × (get_or xs i empty_attempt ≡ a) × (is_due now a ≡ true)

due_of-IsDue : (now : ℕ) (xs : List Attempt) → All (IsDue now xs) (due_of now xs)
unfolding due_of IsDue
due_of-IsDue now [] = tt
due_of-IsDue now (a ∷ rest) =
    let later =
      All-map (IsDue now rest) (IsDue now (a ∷ rest))
        (λ b (i, lt, e, d). (suc i, omega arith, e, d)) (due_of now rest) (due_of-IsDue now rest) in
    elim (Bool-cases (is_due now a)) [
      | inl t ↦ rw t ((0, omega arith, refl, t), later)
      | inr f ↦ rw f later
    ]

-- Every packet that a round of restore deliveries hands to Steam, whatever Steam answers, is for an
-- attempt that is in the table and due at the start of the round: it goes to that attempt's player,
-- with data of that player from the attempt's expedition and authority, under the attempt's nonce and
-- generation, and its purpose is a restore. Who is not the host sends nothing.
pub deliver_due_lem :
    (transport : ChunkPacket → Bool) (is_local_host : Bool) (now : ℕ) (clocks : ℕ → DeliverClock)
    (s : State)
    → All
        (λ q.
          (a : Attempt) × ((i : ℕ) × (i < length s.attempts)
            × (get_or s.attempts i empty_attempt ≡ a)
            × (is_due now a ≡ true))
          × IsFor a q)
        (deliver_due transport is_local_host now clocks s).0
      × (is_local_host ≡ false → (deliver_due transport is_local_host now clocks s).0 ≡ [])
unfolding deliver_due IsDue
deliver_due_lem transport false now clocks s = (tt, λ h. refl)
deliver_due_lem transport true now clocks s = (
  deliver_each-All transport (IsDue now s.attempts) clocks 0 (due_of now s.attempts) s
      (due_of-IsDue now s.attempts),
  λ h. cc,
)
