-- ===== src/Transfer/Check.antt =====
-- The checks of a packet in `HandleRevenantFixFullPgdChunk`, and the receipt of the authority.
use revenant_fix.Prelude.{
  ℕ, ◌+◌, ◌-◌, ◌*◌, ◌%◌, ◌^◌, Bool, true, false, ◌&&◌, ◌||◌, not, Option, none, some, ltb, leb,
  ◌==◌, if◌then◌else◌,
}
use revenant_fix.Pgd.{fnv1a32, is_shape_valid, chunk_payload_size}
use revenant_fix.Transfer.{
  ChunkPacket, Receipt, Authority, Probe, owner_publish, authority_relay, restore_delivery,
}

-- What the handler reads of the rest of the program.
pub record Context : Type 0 where
  pub local_steam_id : ℕ
  pub owner_steam_id : ℕ
  pub is_host : Bool
  pub current_master_lobby_id : ℕ
  pub authority : Authority
  pub probe : Probe

-- `expected_chunk_size`, a `uint32_t`.
abbrev pub expected_chunk_size : ChunkPacket → ℕ
expected_chunk_size p =
    if p.chunk_index + 1 == p.chunk_count
    then (p.total_size + 2 ^ 32 - p.chunk_index * chunk_payload_size % 2 ^ 32) % 2 ^ 32
    else chunk_payload_size

-- The checks that do not depend on the purpose.
unfoldable pub is_well_formed : Context → ℕ → ChunkPacket → Bool
is_well_formed c sender p =
    (not (c.local_steam_id == 0) && (not (sender == 0) && p.target_steam_id == c.local_steam_id))
    && ((not (p.lobby_id == 0)
          && (p.lobby_id == p.master_lobby_id
              && (not (p.owner_steam_id == 0)
                  && (not (p.expedition_lobby_id == 0)
                      && (not (p.authority_commit_seq == 0)
                          && (not (p.codec_version == 0)
                              && (not (p.snapshot_revision == 0) && not (p.total_hash32 == 0))))))))
        && ((is_shape_valid p.total_size p.chunk_count
              && (ltb p.chunk_index p.chunk_count
                  && (p.chunk_size == expected_chunk_size p
                      && (not (p.chunk_size == 0) && leb p.chunk_size chunk_payload_size))))
            && (not (p.chunk_hash32 == 0) && fnv1a32 p.payload == p.chunk_hash32)))

-- `PublishBhrcFullPgdAuthorityReceipt`.
unfoldable pub publish_receipt : ℕ → ℕ → ℕ → ℕ → Receipt → Receipt
publish_receipt master expedition owner seq r =
    if master == 0 || (expedition == 0 || (owner == 0 || seq == 0))
    then r
    else if r.valid
        && (r.master_lobby_id == master
            && (r.expedition_lobby_id == expedition
                && (r.owner_steam_id == owner && ltb seq r.authority_commit_seq)))
    then r
    else record {
      valid = true;
      master_lobby_id = master;
      expedition_lobby_id = expedition;
      owner_steam_id = owner;
      authority_commit_seq = seq;
    }

-- `SnapshotBhrcFullPgdAuthorityReceipt`: the sequence number that is known, if any.
unfoldable pub known_seq : Authority → Receipt → Option ℕ
known_seq a r =
    if not r.valid
      || (not a.valid
          || (not (r.master_lobby_id == a.master_lobby_id)
              || (not (r.expedition_lobby_id == a.lobby_id)
                  || (not (r.owner_steam_id == a.owner_steam_id) || r.authority_commit_seq == 0))))
    then none
    else some r.authority_commit_seq

abbrev pub is_older : ℕ → Option ℕ → Bool
is_older seq none = false
is_older seq (some known) = ltb seq known

-- A publication by the player who owns the data, at the host.
unfoldable pub accepts_publish : Context → ℕ → ChunkPacket → Bool
accepts_publish c sender p =
    c.is_host
    && (p.owner_steam_id == sender
        && (p.request_nonce == 0
            && (p.client_generation == 0
                && (c.authority.valid
                    && (c.authority.owner_steam_id == c.local_steam_id
                        && (p.master_lobby_id == c.authority.master_lobby_id
                            && (p.expedition_lobby_id == c.authority.lobby_id
                                && p.authority_commit_seq == c.authority.commit_seq)))))))

-- A relay by the authority, at a client.
unfoldable pub accepts_relay : Context → ℕ → Receipt → ChunkPacket → Bool
accepts_relay c sender r p =
    let local_tuple : Bool =
      c.authority.valid
      && (sender == c.owner_steam_id
          && (c.authority.owner_steam_id == sender
              && (p.master_lobby_id == c.authority.master_lobby_id
                  && p.expedition_lobby_id == c.authority.lobby_id))) in
    let authorized_early_tuple : Bool =
      c.probe.authorized
      && (sender == c.probe.host_steam_id
          && (p.master_lobby_id == c.probe.master_lobby_id
              && (p.expedition_lobby_id == c.probe.expedition_lobby_id
                  && p.authority_commit_seq == c.probe.authority_commit_seq))) in
    let nrsc_owner_transport_tuple : Bool =
      sender == c.owner_steam_id
      && (not (c.owner_steam_id == 0)
          && (p.master_lobby_id == c.current_master_lobby_id
              && not (p.expedition_lobby_id == p.master_lobby_id))) in
    not c.is_host
    && (p.request_nonce == 0
        && (p.client_generation == 0
            && ((local_tuple || (authorized_early_tuple || nrsc_owner_transport_tuple))
                && not (is_older p.authority_commit_seq (known_seq c.authority r)))))

-- A delivery to the returning player who asked for it.
unfoldable pub accepts_restore : Context → ℕ → ChunkPacket → Bool
accepts_restore c sender p =
    not c.is_host
    && (c.probe.authorized
        && (p.owner_steam_id == c.local_steam_id
            && (sender == c.probe.host_steam_id
                && (not (p.request_nonce == 0)
                    && (p.request_nonce == c.probe.request_nonce
                        && (p.client_generation == c.probe.client_generation
                            && (p.master_lobby_id == c.probe.master_lobby_id
                                && (p.expedition_lobby_id == c.probe.expedition_lobby_id
                                    && p.authority_commit_seq
                                      == c.probe.authority_commit_seq))))))))

-- The first half of the function: a packet is rejected, comes too late, or is assembled.
pub data Verdict : Type 0 where
  rejected late accepted : Verdict

unfoldable pub verdict : Context → ℕ → Receipt → ChunkPacket → Verdict
verdict c sender r p =
    if not (is_well_formed c sender p)
    then rejected
    else if p.purpose == owner_publish
    then (if accepts_publish c sender p then accepted else rejected)
    else if p.purpose == authority_relay
    then (if accepts_relay c sender r p then accepted else rejected)
    else if p.purpose == restore_delivery
    then (if not (accepts_restore c sender p)
        then rejected
        else if c.probe.restore_window_closed
        then late
        else accepted)
    else rejected
