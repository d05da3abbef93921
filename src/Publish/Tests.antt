-- ===== src/Publish/Tests.antt =====
-- Runs of the publication, and instances of its theorems.
use revenant_fix.Prelude.{
  ℕ, ◌≡◌, ◌≢◌, ◌<◌, ◌⊎◌, refl, arith, true, false, ◌&&◌, not, List, [], ◌∷◌, ◌==◌, find_index,
  replicate, length, get_or, All, count,
}
use revenant_fix.Pgd.{HotSnapshot, empty_snapshot, key_of, fnv1a32}
use revenant_fix.Pgd.Store.{copy, find_snapshot}
use revenant_fix.Transfer.Send.{send, send_from, may_send, is_sendable, chunk_at}
use revenant_fix.Publish.{
  mark_for_publish, mark_published, pending_keys, send_snapshot, relay_to, relay, publish,
  publish_each, advance_publication,
}
use revenant_fix.Publish.Relayed.{IsPublished, advance_publication_lem}
use revenant_fix.Publish.Pending.{IsSent, mark_published_lem, relay_lem}

program : Unit {0}
unfolding fnv1a32 copy find_snapshot send send_from may_send is_sendable chunk_at mark_for_publish
    mark_published pending_keys send_snapshot relay_to relay publish publish_each
    advance_publication find_index count
program = tt

abbrev hot : HotSnapshot
hot = record empty_snapshot {
  valid = true;
  publish_pending = true;
  owner_steam_id = 11;
  master_lobby_id = 40;
  expedition_lobby_id = 30;
  authority_commit_seq = 2;
  codec_version = 1;
  snapshot_revision = 5;
  payload_size = 432;
  payload_hash32 = 0x5f1a_f9b5;
  payload = replicate 432 7;
}

abbrev table : List HotSnapshot
table = hot ∷ []

abbrev player_host : ℕ
player_host = 20

abbrev peers : List ℕ
peers = 0 ∷ 12 ∷ 13 ∷ []

-- The host 20 relays to both peers, and the snapshot is not pending any more.
run_relay :
    (length (advance_publication (λ q. true) (λ n. 700) 20 20 (λ p. true) peers table).0 ≡ 2)
    × ((advance_publication (λ q. true) (λ n. 700) 20 20 (λ p. true) peers table).1
        ≡ record hot { publish_pending = false; last_publish_tick_ms = 700 } ∷ [])
unfolding program
run_relay = (refl, refl)

advance_publication_lem_example :
    All
      (IsPublished 11 20 peers)
      (advance_publication (λ q. true) (λ n. 700) 11 20 (λ p. true) peers table).0
    × ((hot.owner_steam_id ≡ 0) ⊎ (player_host ≡ 0)
        → advance_publication (λ q. true) (λ n. 700) 11 20 (λ p. true) peers table ≡ ([], table))
advance_publication_lem_example =
    advance_publication_lem (λ q. true) (λ n. 700) 11 20 (λ p. true) peers table

mark_published_lem_example :
    ((i : ℕ)
      → i < 1
      → (get_or table i empty_snapshot).valid ≡ true
      → IsSent (key_of hot) (get_or table i empty_snapshot)
      → (get_or (mark_published 700 (key_of hot) table) i empty_snapshot
          ≡ record (get_or table i empty_snapshot) {
            publish_pending = false;
            last_publish_tick_ms = 700;
          })
        × ((j : ℕ)
            → i ≢ j
            → get_or (mark_published 700 (key_of hot) table) j empty_snapshot
              ≡ get_or table j empty_snapshot))
    × (((i : ℕ) → ¬ ((i < 1) × IsSent (key_of hot) (get_or table i empty_snapshot)))
        → mark_published 700 (key_of hot) table ≡ table)
unfolding count
mark_published_lem_example = mark_published_lem 700 (key_of hot) table (omega arith)

relay_lem_example :
    relay (λ q. true) 20 peers (key_of hot) table
    ≡ relay_to (λ q. true) (λ peer. not (peer == 0) && not (peer == 11)) peers (key_of hot) table
unfolding count
relay_lem_example = relay_lem (λ q. true) (key_of hot) table 20 peers refl
