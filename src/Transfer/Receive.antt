-- ===== src/Transfer/Receive.antt =====
-- The rest of `HandleRevenantFixFullPgdChunk`: the assembly, and what is done with a complete payload.
-- A reading of the clock is an argument.
use revenant_fix.Prelude.{
  ℕ, zero, suc, ◌+◌, ◌-◌, ◌*◌, ◌%◌, ◌^◌, Bool, true, false, ◌&&◌, not, Option, none, some, List, [],
  ◌∷◌, ltb, leb, ◌==◌, if◌then◌else◌, length, get_or, set, set_bit, is_some,
}
use revenant_fix.Pgd.{HotSnapshot, fnv1a32, chunk_payload_size}
use revenant_fix.Pgd.Store.{Stored, store}
use revenant_fix.Transfer.{
  ChunkPacket, Assembly, Receipt, empty_assembly, owner_publish, authority_relay, restore_delivery,
}
use revenant_fix.Transfer.Check.{Context, publish_receipt, verdict, rejected, late, accepted}

-- `BhrcFullPgdPacketMatchesAssembly`.
unfoldable pub is_match : Assembly → ℕ → ChunkPacket → Bool
is_match a sender p =
    a.valid
    && (a.sender_steam_id == sender
        && (a.target_steam_id == p.target_steam_id
            && (a.owner_steam_id == p.owner_steam_id
                && (a.master_lobby_id == p.master_lobby_id
                    && (a.expedition_lobby_id == p.expedition_lobby_id
                        && (a.authority_commit_seq == p.authority_commit_seq
                            && (a.request_nonce == p.request_nonce
                                && (a.client_generation == p.client_generation
                                    && (a.codec_version == p.codec_version
                                        && (a.snapshot_revision == p.snapshot_revision
                                            && (a.total_size == p.total_size
                                                && (a.total_hash32 == p.total_hash32
                                                    && (a.chunk_count == p.chunk_count
                                                        && a.purpose == p.purpose)))))))))))))

-- An assembly that got nothing for 30 seconds is cleared.
unfoldable pub expire : ℕ → Assembly → Assembly
expire now a =
    if a.valid && leb 30000 ((now + 2 ^ 64 - a.received_tick_ms) % 2 ^ 64)
    then empty_assembly
    else a

-- The loop over the places: the table with what it cleared, and the place for the packet. `target`
-- is the first free place so far, and `oldest` the place with the smallest time, which is `tick`.
unfoldable pub place_from :
    ℕ → ChunkPacket → ℕ → List Assembly → ℕ → Option ℕ → ℕ → ℕ → List Assembly × ℕ
place_from sender p now [] i target oldest tick = ([], elim target [ none ↦ oldest | some t ↦ t ])
place_from sender p now (a ∷ rest) i target oldest tick =
    let candidate : Assembly = expire now a in
    let older : Bool = ltb candidate.received_tick_ms tick in
    let later : List Assembly × ℕ =
      place_from sender p now rest (i + 1)
        (if not candidate.valid && not (is_some target) then some i else target)
        (if older then i else oldest) (if older then candidate.received_tick_ms else tick) in
    if is_match candidate sender p then (candidate ∷ rest, i) else (candidate ∷ later.0, later.1)

unfoldable pub place : ℕ → ChunkPacket → ℕ → List Assembly → List Assembly × ℕ
place sender p now xs =
    place_from sender p now xs 0 none 0 (expire now (get_or xs 0 empty_assembly)).received_tick_ms

-- An assembly for the packet's transfer, with nothing received.
unfoldable pub new_assembly : ℕ → ChunkPacket → Assembly
new_assembly sender p = record empty_assembly {
  valid = true;
  sender_steam_id = sender;
  target_steam_id = p.target_steam_id;
  owner_steam_id = p.owner_steam_id;
  master_lobby_id = p.master_lobby_id;
  expedition_lobby_id = p.expedition_lobby_id;
  authority_commit_seq = p.authority_commit_seq;
  request_nonce = p.request_nonce;
  client_generation = p.client_generation;
  codec_version = p.codec_version;
  snapshot_revision = p.snapshot_revision;
  total_size = p.total_size;
  total_hash32 = p.total_hash32;
  chunk_count = p.chunk_count;
  purpose = p.purpose;
}

-- `std::memcpy(buffer + offset, bytes, size)`.
unfoldable pub write : (ℕ → ℕ) → ℕ → List ℕ → ℕ → ℕ
write buffer offset bytes j =
    if leb offset j && ltb j (offset + length bytes) then get_or bytes (j - offset) 0 else buffer j

-- The first `n` bytes of a buffer, from `offset` on.
unfoldable pub read : (ℕ → ℕ) → ℕ → ℕ → List ℕ
read buffer offset zero = []
read buffer offset (suc n) = buffer offset ∷ read buffer (offset + 1) n

-- The packet's bytes are copied and its bit is set.
unfoldable pub add_chunk : ℕ → ChunkPacket → Assembly → Assembly
add_chunk now p a = record a {
  received_tick_ms = now;
  payload = write a.payload (p.chunk_index * chunk_payload_size) p.payload;
  received_chunk_mask = set_bit a.received_chunk_mask p.chunk_index;
}

abbrev pub expected_mask : ℕ → ℕ
expected_mask chunk_count = if chunk_count == 64 then 2 ^ 64 - 1 else 2 ^ chunk_count - 1

-- The locked part: the payload, if it is complete, and the table. A complete assembly is cleared.
unfoldable pub assemble : ℕ → ChunkPacket → ℕ → List Assembly → Option (List ℕ) × List Assembly
assemble sender p now xs =
    let placed : List Assembly × ℕ = place sender p now xs in
    let old : Assembly = get_or placed.0 placed.1 empty_assembly in
    let a : Assembly =
      add_chunk now p (if is_match old sender p then old else new_assembly sender p) in
    if a.received_chunk_mask == expected_mask p.chunk_count
    then (some (read a.payload 0 a.total_size), set placed.0 placed.1 empty_assembly)
    else (none, set placed.0 placed.1 a)

-- The state that the handler changes.
pub record State : Type 0 where
  pub receipt : Receipt
  pub assemblies : List Assembly
  pub snapshots : List HotSnapshot

-- What becomes of a packet; `arm_restore` is a call of `ArmBhrcFullPgdRestoreTicket`.
pub data Outcome : Type 0 where
  packet_rejected packet_late waiting hash_mismatch : Outcome
  arm_restore : List ℕ → Outcome
  stored : Stored → Outcome

-- What is done with a complete payload.
unfoldable pub finish : ChunkPacket → ℕ → List ℕ → State → Outcome × State
finish p now bytes s =
    let result : Stored =
      store
        (record {
          owner_steam_id = p.owner_steam_id;
          master_lobby_id = p.master_lobby_id;
          expedition_lobby_id = p.expedition_lobby_id;
          authority_commit_seq = p.authority_commit_seq;
          codec_version = p.codec_version;
          requested_revision = p.snapshot_revision;
          payload = bytes;
          payload_hash32 = p.total_hash32;
          publish_pending = p.purpose == owner_publish;
          authoritative_replace = false;
          now = now;
        })
        s.snapshots in
    if not (fnv1a32 bytes == p.total_hash32)
    then (hash_mismatch, s)
    else if p.purpose == restore_delivery
    then (arm_restore bytes, s)
    else (stored result, record s { snapshots = result.table })

-- `HandleRevenantFixFullPgdChunk`, which returns true in every case, where the memory for the
-- complete payload is there.
unfoldable pub handle : Context → ℕ → ChunkPacket → ℕ → ℕ → State → Outcome × State
handle c sender p now later s = elim (verdict c sender s.receipt p) [
  | rejected ↦ (packet_rejected, s)
  | late ↦ (packet_late, s)
  | accepted ↦
      let receipt : Receipt =
        if p.purpose == authority_relay
        then publish_receipt p.master_lobby_id p.expedition_lobby_id sender p.authority_commit_seq
            s.receipt
        else s.receipt in
      let (done, assemblies) = assemble sender p now s.assemblies in
      let s' : State = record s { receipt = receipt; assemblies = assemblies } in
      elim done [ none ↦ (waiting, s') | some bytes ↦ finish p later bytes s' ]
]
