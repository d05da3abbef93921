-- ===== src/Transfer/Tests.antt =====
-- Runs of a transfer, and instances of its theorems.
use revenant_fix.Prelude.{
  ℕ, ◌≤◌, ◌≡◌, refl, true, false, none, some, List, [], ◌∷◌, arith, find_index, count, replicate,
  inl,
}
use revenant_fix.Pgd.{fnv1a32, is_shape_valid}
use revenant_fix.Transfer.{ChunkPacket, restore_delivery, authority_relay}
use revenant_fix.Transfer.Send.{Delivery, is_sendable, chunk_at, may_send, send_from, send}
use revenant_fix.Transfer.Check.{
  Context, is_well_formed, publish_receipt, known_seq, accepts_publish, accepts_relay,
  accepts_restore, verdict,
}
use revenant_fix.Transfer.Receive.{
  State, arm_restore, is_match, expire, place_from, place, new_assembly, write, read, add_chunk,
  assemble, finish, handle,
}
use revenant_fix.Transfer.Assemble.{Arrival, assemble_all, no_assemblies, assemble-send}
use revenant_fix.Transfer.Complete.{assemble_all-completes}
use revenant_fix.Transfer.Handle.{handle-receipt_le, handle-arm_restore}

program : Unit {0}
unfolding fnv1a32 is_shape_valid is_sendable chunk_at may_send send_from send is_well_formed
    publish_receipt known_seq accepts_publish accepts_relay accepts_restore verdict is_match expire
    place_from place new_assembly write read add_chunk assemble finish handle find_index count
program = tt

abbrev payload : List ℕ
payload = replicate 432 7

abbrev delivery : Delivery
delivery = record {
  target_steam_id = 11;
  key = record {
    owner_steam_id = 11;
    master_lobby_id = 40;
    expedition_lobby_id = 30;
    authority_commit_seq = 2;
    codec_version = 1;
    snapshot_revision = 3;
    payload_size = 432;
    payload_hash32 = 0x5f1a_f9b5;
  };
  payload = payload;
  purpose = restore_delivery;
  request_nonce = 5;
  client_generation = 1;
}

run_send : send (λ p. true) (λ i. ([], 0)) delivery none ≡ (true, chunk_at delivery 0 ∷ [])
unfolding program
run_send = refl

-- A packet of another player's transfer.
abbrev foreign : Arrival
foreign = record {
  from = 9;
  packet = record (chunk_at delivery 0) { owner_steam_id = 12 };
  now = 10;
}

run_assemble :
    (assemble 9 (chunk_at delivery 0) 20 (assemble_all (foreign ∷ []) no_assemblies)).0
    ≡ some payload
unfolding program
run_assemble = refl

assemble-send_example : payload ≡ payload
unfolding program
assemble-send_example =
    assemble-send 9 delivery (foreign ∷ []) 0 20 payload refl refl (inl refl, tt) (omega arith)
      run_assemble

-- A payload of one chunk, which arrives without any other.
assemble_all-completes_example :
    (assemble 9 (chunk_at delivery 0) 20 no_assemblies).0 ≡ some payload
unfolding program
assemble_all-completes_example =
    assemble_all-completes 9 delivery [] 0 20 refl refl (omega arith) tt refl
      (λ k lt ne. absurd (ne (omega arith))) tt

abbrev context : Context
context = record {
  local_steam_id = 11;
  owner_steam_id = 9;
  is_host = false;
  current_master_lobby_id = 40;
  authority = record {
    valid = false;
    master_lobby_id = 0;
    lobby_id = 0;
    owner_steam_id = 0;
    commit_seq = 0;
  };
  probe = record {
    authorized = true;
    restore_window_closed = false;
    host_steam_id = 9;
    master_lobby_id = 40;
    expedition_lobby_id = 30;
    authority_commit_seq = 2;
    request_nonce = 5;
    client_generation = 1;
  };
}

abbrev state : State
state = record {
  receipt = record {
    valid = true;
    master_lobby_id = 40;
    expedition_lobby_id = 30;
    owner_steam_id = 9;
    authority_commit_seq = 2;
  };
  assemblies = no_assemblies;
  snapshots = [];
}

run_handle : (handle context 9 (chunk_at delivery 0) 20 21 state).0 ≡ arm_restore payload
unfolding program
run_handle = refl

handle-arm_restore_example :
    (fnv1a32 payload ≡ 0x5f1a_f9b5)
    × (context.is_host ≡ false)
    × (context.probe.authorized ≡ true)
    × (context.probe.restore_window_closed ≡ false)
    × (9 ≡ context.probe.host_steam_id)
    × ((chunk_at delivery 0).owner_steam_id ≡ context.local_steam_id)
    × ((chunk_at delivery 0).request_nonce ≡ context.probe.request_nonce)
unfolding chunk_at
handle-arm_restore_example =
    handle-arm_restore context 9 (chunk_at delivery 0) 20 21 state payload run_handle

-- The host relays under a later authority.
abbrev relayed : ChunkPacket
relayed = record (chunk_at delivery 0) {
  purpose = authority_relay;
  authority_commit_seq = 4;
  request_nonce = 0;
  client_generation = 0;
}

handle-receipt_le_example :
    state.receipt.authority_commit_seq
    ≤ (handle context 9 relayed 20 21 state).1.receipt.authority_commit_seq
unfolding program
handle-receipt_le_example = handle-receipt_le context 9 relayed 20 21 state refl refl
