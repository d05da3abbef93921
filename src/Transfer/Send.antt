-- ===== src/Transfer/Send.antt =====
-- `SendBhrcFullPgdPayload`: the packets of a payload, and the lease that a delivery to a returning
-- player is checked against. `TrySendRevenantFixSteamPacketRaw`, which calls Steam, is a parameter.
use revenant_fix.Prelude.{
  ℕ, zero, suc, ◌+◌, ◌-◌, ◌*◌, ◌%◌, ◌^◌, Bool, true, false, ◌&&◌, not, Option, none, some, List, [],
  ◌∷◌, ltb, ◌==◌, if◌then◌else◌, take, drop, is_some, find_index,
}
use revenant_fix.Pgd.{
  SnapshotKey, fnv1a32, chunk_payload_size, min_payload_size, max_payload_size, chunks_of,
}
use revenant_fix.Admission.{Attempt}
use revenant_fix.Admission.Table.{is_same_tuple}
use revenant_fix.Transfer.{ChunkPacket}

-- The arguments, without the reason, and the payload as the bytes that it points to.
pub record Delivery : Type 0 where
  pub target_steam_id : ℕ
  pub key : SnapshotKey
  pub payload : List ℕ
  pub purpose : ℕ
  pub request_nonce : ℕ
  pub client_generation : ℕ

-- The checks at the head of the function.
unfoldable pub is_sendable : Delivery → Bool
is_sendable d =
    not (d.target_steam_id == 0)
    && (not (d.key.owner_steam_id == 0)
        && (not (d.key.master_lobby_id == 0)
            && (not (d.key.expedition_lobby_id == 0)
                && (not (d.key.authority_commit_seq == 0)
                    && (not (d.key.codec_version == 0)
                        && (not (d.key.snapshot_revision == 0)
                            && (not (d.key.payload_hash32 == 0)
                                && (not (ltb d.key.payload_size min_payload_size)
                                    && (not (ltb max_payload_size d.key.payload_size)
                                        && fnv1a32 (take d.key.payload_size d.payload)
                                          == d.key.payload_hash32)))))))))

-- The size of chunk `i` of `size` bytes.
abbrev pub chunk_size_at : ℕ → ℕ → ℕ
chunk_size_at size i =
    if ltb (size - i * chunk_payload_size) chunk_payload_size
    then size - i * chunk_payload_size
    else chunk_payload_size

-- The bytes of chunk `i`.
abbrev pub chunk_bytes : List ℕ → ℕ → ℕ → List ℕ
chunk_bytes payload size i = take (chunk_size_at size i) (drop (i * chunk_payload_size) payload)

-- The packet that the loop builds in round `i`.
unfoldable pub chunk_at : Delivery → ℕ → ChunkPacket
chunk_at d i = record {
  target_steam_id = d.target_steam_id;
  lobby_id = d.key.master_lobby_id;
  owner_steam_id = d.key.owner_steam_id;
  master_lobby_id = d.key.master_lobby_id;
  expedition_lobby_id = d.key.expedition_lobby_id;
  authority_commit_seq = d.key.authority_commit_seq;
  request_nonce = d.request_nonce;
  client_generation = d.client_generation;
  codec_version = d.key.codec_version;
  snapshot_revision = d.key.snapshot_revision;
  total_size = d.key.payload_size;
  total_hash32 = d.key.payload_hash32;
  chunk_index = i;
  chunk_count = chunks_of d.key.payload_size % 2 ^ 16;
  chunk_size = chunk_size_at d.key.payload_size i;
  chunk_hash32 = fnv1a32 (chunk_bytes d.payload d.key.payload_size i);
  purpose = d.purpose;
  payload = chunk_bytes d.payload d.key.payload_size i;
}

-- `BhrcFullPgdAdmissionAttemptIdentityMatches`.
unfoldable pub is_same_attempt_identity : Attempt → Attempt → Bool
is_same_attempt_identity l r = is_same_tuple l r && l.reservation_serial == r.reservation_serial

-- Whether an attempt is the lease of the delivery at a time.
unfoldable pub is_lease : Delivery → Attempt → ℕ → Attempt → Bool
is_lease d guard now current =
    is_same_attempt_identity current guard
    && (ltb now current.expires_tick_ms
        && (current.full_pgd_codec_version == d.key.codec_version
            && (current.full_pgd_snapshot_revision == d.key.snapshot_revision
                && (current.full_pgd_payload_size == d.key.payload_size
                    && current.full_pgd_snapshot_hash32 == d.key.payload_hash32))))

-- Whether round `i` may send: without a guard always, with one while its lease is in the table.
unfoldable pub may_send : Delivery → Option Attempt → List Attempt × ℕ → Bool
may_send d none seen = true
may_send d (some guard) seen = is_some (find_index (is_lease d guard seen.1) seen.0)

module _ (transport : ChunkPacket → Bool) (seen : ℕ → List Attempt × ℕ) where
  -- The loop, from round `i` with `left` rounds to go: whether all was sent, and what was handed to
  -- Steam. `seen i` is the table of attempts in round `i`, and the time.
  unfoldable pub send_from : Delivery → Option Attempt → ℕ → ℕ → Bool × List ChunkPacket
  send_from d guard i zero = (true, [])
  send_from d guard i (suc left) =
      let packet : ChunkPacket = chunk_at d i in
      let rest : Bool × List ChunkPacket = send_from d guard (i + 1) left in
      if not (may_send d guard (seen i))
      then (false, [])
      else if transport packet
      then (rest.0, packet ∷ rest.1)
      else (false, packet ∷ [])

  -- `SendBhrcFullPgdPayload`, where the memory for the packet is there.
  unfoldable pub send : Delivery → Option Attempt → Bool × List ChunkPacket
  send d guard =
      if not (is_sendable d)
      then (false, [])
      else send_from d guard 0 (chunks_of d.key.payload_size % 2 ^ 16)
