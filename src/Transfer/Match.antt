-- ===== src/Transfer/Match.antt =====
-- Which packets an assembly matches.
use revenant_fix.Prelude.{ℕ, ◌≡◌, refl, Bool, true, false, ◌&&◌, ◌==◌, arith}
use mathlib.Core.Bool.{false≢true}
use revenant_fix.Transfer.{ChunkPacket, Assembly, empty_assembly}
use revenant_fix.Transfer.Receive.{is_match, new_assembly, add_chunk}

and_true : {a b : Bool} → (a && b) ≡ true → (a ≡ true) × (b ≡ true)
and_true {a = true} h = (refl, h)
and_true {a = false} h = absurd (false≢true h)

eq_true : {m n : ℕ} → (m == n) ≡ true → m ≡ n
eq_true h = ground arith

-- An assembly that gets a packet is of the packet's transfer.
pub match-add_chunk :
    (now from sender : ℕ) (p q : ChunkPacket) (a : Assembly)
    → is_match a from p ≡ true
    → is_match (add_chunk now p a) sender q ≡ is_match (new_assembly from p) sender q
unfolding is_match add_chunk new_assembly
match-add_chunk now from sender p q a h =
    let (v, h1) = and_true {a = a.valid} h in
    let (e1, h2) = and_true {a = a.sender_steam_id == from} h1 in
    let (e2, h3) = and_true {a = a.target_steam_id == p.target_steam_id} h2 in
    let (e3, h4) = and_true {a = a.owner_steam_id == p.owner_steam_id} h3 in
    let (e4, h5) = and_true {a = a.master_lobby_id == p.master_lobby_id} h4 in
    let (e5, h6) = and_true {a = a.expedition_lobby_id == p.expedition_lobby_id} h5 in
    let (e6, h7) = and_true {a = a.authority_commit_seq == p.authority_commit_seq} h6 in
    let (e7, h8) = and_true {a = a.request_nonce == p.request_nonce} h7 in
    let (e8, h9) = and_true {a = a.client_generation == p.client_generation} h8 in
    let (e9, h10) = and_true {a = a.codec_version == p.codec_version} h9 in
    let (e10, h11) = and_true {a = a.snapshot_revision == p.snapshot_revision} h10 in
    let (e11, h12) = and_true {a = a.total_size == p.total_size} h11 in
    let (e12, h13) = and_true {a = a.total_hash32 == p.total_hash32} h12 in
    let (e13, h14) = and_true {a = a.chunk_count == p.chunk_count} h13 in
    rw
      (
        v,
        eq_true {m = a.sender_steam_id} {n = from} e1,
        eq_true {m = a.target_steam_id} {n = p.target_steam_id} e2,
        eq_true {m = a.owner_steam_id} {n = p.owner_steam_id} e3,
        eq_true {m = a.master_lobby_id} {n = p.master_lobby_id} e4,
        eq_true {m = a.expedition_lobby_id} {n = p.expedition_lobby_id} e5,
        eq_true {m = a.authority_commit_seq} {n = p.authority_commit_seq} e6,
        eq_true {m = a.request_nonce} {n = p.request_nonce} e7,
        eq_true {m = a.client_generation} {n = p.client_generation} e8,
        eq_true {m = a.codec_version} {n = p.codec_version} e9,
        eq_true {m = a.snapshot_revision} {n = p.snapshot_revision} e10,
        eq_true {m = a.total_size} {n = p.total_size} e11,
        eq_true {m = a.total_hash32} {n = p.total_hash32} e12,
        eq_true {m = a.chunk_count} {n = p.chunk_count} e13,
        eq_true {m = a.purpose} {n = p.purpose} h14,
      )
      refl

pub new-match : (from : ℕ) (p : ChunkPacket) → is_match (new_assembly from p) from p ≡ true
unfolding is_match new_assembly
new-match from p = ground arith

pub blank-match : (from : ℕ) (p : ChunkPacket) → is_match empty_assembly from p ≡ false
unfolding is_match
blank-match from p = refl

pub match-size :
    (a : Assembly) (sender : ℕ) (p : ChunkPacket)
    → is_match a sender p ≡ true
    → a.total_size ≡ p.total_size
unfolding is_match
match-size a sender p h = ground arith
