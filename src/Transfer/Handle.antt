-- ===== src/Transfer/Handle.antt =====
-- `HandleRevenantFixFullPgdChunk` as a whole: the receipt of the authority, and what is armed.
use revenant_fix.Prelude.{
  ℕ, ◌≤◌, ◌≡◌, ◌⊎◌, refl, Bool, true, false, ◌&&◌, List, ◌==◌, if◌then◌else◌, arith, Bool-cases,
  Option-cases, inl, inr,
}
use revenant_fix.Pgd.{fnv1a32}
use revenant_fix.Transfer.{ChunkPacket, Receipt, authority_relay, restore_delivery}
use revenant_fix.Transfer.Check.{Context, Verdict, verdict, publish_receipt, accepts_restore}
use revenant_fix.Transfer.Receive.{
  State, packet_rejected, packet_late, waiting, arm_restore, assemble, finish, handle,
}

-- A receipt of the same authority for the same expedition.
abbrev pub is_same_authority : Receipt → Receipt → Bool
is_same_authority r r' =
    r'.master_lobby_id == r.master_lobby_id
    && (r'.expedition_lobby_id == r.expedition_lobby_id && r'.owner_steam_id == r.owner_steam_id)

publish_receipt_le :
    (master expedition owner seq : ℕ) (r : Receipt)
    → r.valid ≡ true
    → is_same_authority r (publish_receipt master expedition owner seq r) ≡ true
    → r.authority_commit_seq ≤ (publish_receipt master expedition owner seq r).authority_commit_seq
unfolding publish_receipt
publish_receipt_le master expedition owner seq r v same = ground arith

finish-receipt :
    (p : ChunkPacket) (now : ℕ) (bytes : List ℕ) (s : State)
    → (finish p now bytes s).1.receipt ≡ s.receipt
unfolding finish
finish-receipt p now bytes s = ground arith

-- The receipt that a packet leaves.
abbrev next_receipt : ℕ → ChunkPacket → Receipt → Receipt
next_receipt sender p r =
    if p.purpose == authority_relay
    then publish_receipt p.master_lobby_id p.expedition_lobby_id sender p.authority_commit_seq r
    else r

Verdict-cases :
    (v : Verdict) → (v ≡ Verdict.rejected) ⊎ ((v ≡ Verdict.late) ⊎ (v ≡ Verdict.accepted))
Verdict-cases Verdict.rejected = inl refl
Verdict-cases Verdict.late = inr (inl refl)
Verdict-cases Verdict.accepted = inr (inr refl)

handle-cases :
    (c : Context) (sender : ℕ) (p : ChunkPacket) (now later : ℕ) (s : State)
    → ((handle c sender p now later s).1 ≡ s)
      ⊎ ((handle c sender p now later s).1.receipt ≡ next_receipt sender p s.receipt)
unfolding handle
handle-cases c sender p now later s = elim (Verdict-cases (verdict c sender s.receipt p)) [
  | inl e ↦ rw (e, handle) (inl refl)
  | inr (inl e) ↦ rw (e, handle) (inl refl)
  | inr (inr e) ↦ elim (Option-cases (assemble sender p now s.assemblies).0) [
    | inl f ↦ rw (e, f, handle) (inr refl)
    | inr (bytes, f) ↦
        rw (e, f, handle)
          (inr (
            finish-receipt p later bytes (record s {
              receipt = next_receipt sender p s.receipt;
              assemblies = (assemble sender p now s.assemblies).1;
            })))
  ]
]

-- No packet takes the receipt back: while it names the same authority for the same expedition, its
-- sequence number never falls.
pub handle-receipt_le :
    (c : Context) (sender : ℕ) (p : ChunkPacket) (now later : ℕ) (s : State)
    → s.receipt.valid ≡ true
    → is_same_authority s.receipt (handle c sender p now later s).1.receipt ≡ true
    → s.receipt.authority_commit_seq
      ≤ (handle c sender p now later s).1.receipt.authority_commit_seq
handle-receipt_le c sender p now later s v same = elim (handle-cases c sender p now later s) [
  | inl e ↦ rw e (omega arith)
  | inr e ↦ rw e (relayed (rw e at same))
]
  where
    relayed :
        is_same_authority s.receipt (next_receipt sender p s.receipt) ≡ true
        → s.receipt.authority_commit_seq ≤ (next_receipt sender p s.receipt).authority_commit_seq
    relayed h = elim (Bool-cases (p.purpose == authority_relay)) [
      | inl t ↦ rw t (
          publish_receipt_le p.master_lobby_id p.expedition_lobby_id sender p.authority_commit_seq
            s.receipt v (rw t at h))
      | inr f ↦ rw f (omega arith)
    ]

finish-armed :
    (p : ChunkPacket) (now : ℕ) (bytes armed_bytes : List ℕ) (s : State)
    → (finish p now bytes s).0 ≡ arm_restore armed_bytes
    → (fnv1a32 armed_bytes ≡ p.total_hash32) × ((p.purpose == restore_delivery) ≡ true)
unfolding finish
finish-armed p now bytes armed_bytes s armed = ground arith

accepted_restore :
    (c : Context) (sender : ℕ) (r : Receipt) (p : ChunkPacket)
    → verdict c sender r p ≡ Verdict.accepted
    → (p.purpose == restore_delivery) ≡ true
    → (accepts_restore c sender p ≡ true) × (c.probe.restore_window_closed ≡ false)
unfolding verdict
accepted_restore c sender r p ok purpose = ground arith

armed-accepted :
    (c : Context) (sender : ℕ) (p : ChunkPacket) (now later : ℕ) (s : State) (bytes : List ℕ)
    → (handle c sender p now later s).0 ≡ arm_restore bytes
    → (verdict c sender s.receipt p ≡ Verdict.accepted)
      × (fnv1a32 bytes ≡ p.total_hash32)
      × ((p.purpose == restore_delivery) ≡ true)
unfolding handle
armed-accepted c sender p now later s bytes armed =
    elim (Verdict-cases (verdict c sender s.receipt p)) [
      | inl e ↦ absurd (rejected_ne (rw (e, handle) at armed))
      | inr (inl e) ↦ absurd (late_ne (rw (e, handle) at armed))
      | inr (inr e) ↦ elim (Option-cases (assemble sender p now s.assemblies).0) [
        | inl f ↦ absurd (waiting_ne (rw (e, f, handle) at armed))
        | inr (whole, f) ↦
            let state : State = record s {
              receipt = next_receipt sender p s.receipt;
              assemblies = (assemble sender p now s.assemblies).1;
            } in
            let (hash, purpose) =
              finish-armed p later whole bytes state (rw (e, f, handle) at armed) in
            (e, hash, purpose)
      ]
    ]
  where
    rejected_ne : packet_rejected ≡ arm_restore bytes → ⊥
    rejected_ne h = cc

    late_ne : packet_late ≡ arm_restore bytes → ⊥
    late_ne h = cc

    waiting_ne : waiting ≡ arm_restore bytes → ⊥
    waiting_ne h = cc

-- A payload is handed on for a restore only on a client whose probe is authorised and whose restore
-- window is open, from the host that the probe names, for the local player; and it has the
-- fingerprint that the packet announced.
pub handle-arm_restore :
    (c : Context) (sender : ℕ) (p : ChunkPacket) (now later : ℕ) (s : State) (bytes : List ℕ)
    → (handle c sender p now later s).0 ≡ arm_restore bytes
    → (fnv1a32 bytes ≡ p.total_hash32)
      × (c.is_host ≡ false)
      × (c.probe.authorized ≡ true)
      × (c.probe.restore_window_closed ≡ false)
      × (sender ≡ c.probe.host_steam_id)
      × (p.owner_steam_id ≡ c.local_steam_id)
      × (p.request_nonce ≡ c.probe.request_nonce)
unfolding accepts_restore
handle-arm_restore c sender p now later s bytes armed =
    let (ok, hash, purpose) = armed-accepted c sender p now later s bytes armed in
    let (accepts, opened) = accepted_restore c sender s.receipt p ok purpose in
    let (client, authorized, open_window, host, mine, nonce) = go accepts opened in
    (hash, client, authorized, open_window, host, mine, nonce)
  where
    go :
        accepts_restore c sender p ≡ true
        → c.probe.restore_window_closed ≡ false
        → (c.is_host ≡ false)
          × (c.probe.authorized ≡ true)
          × (c.probe.restore_window_closed ≡ false)
          × (sender ≡ c.probe.host_steam_id)
          × (p.owner_steam_id ≡ c.local_steam_id)
          × (p.request_nonce ≡ c.probe.request_nonce)
    go a o = ground arith
