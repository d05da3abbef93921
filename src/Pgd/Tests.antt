-- ===== src/Pgd/Tests.antt =====
-- Runs of the snapshot store, and instances of its theorems.
use revenant_fix.Prelude.{
  ℕ, ◌≤◌, ◌≡◌, ◌≢◌, none, ◌⊎◌, get_or, refl, true, false, some, List, [], ◌∷◌, arith, count,
  find_index, find_elem, replicate,
}
use revenant_fix.Pgd.{SnapshotKey, key_of, HotSnapshot, empty_snapshot, fnv1a32, is_shape_valid}
use revenant_fix.Pgd.Store.{
  Request, is_target, find_snapshot, is_acceptable, drop_stale, oldest_from, choose_target,
  is_same_data, is_rejected, is_written, next_revision, fresh, store_at, store, copy,
}
use revenant_fix.Pgd.Written.{IsValid, store-IsValid}
use revenant_fix.Pgd.Read.{copy-store}
use revenant_fix.Pgd.Revision.{store-revision}
use revenant_fix.Pgd.Generation.{Authority, rebound, rebind_each, reconcile_generation}
use revenant_fix.Pgd.Generation.Rebound.{reconcile_generation_lem}

program : Unit {0}
unfolding fnv1a32 is_shape_valid find_snapshot is_acceptable drop_stale oldest_from choose_target
    is_same_data is_rejected is_written next_revision fresh store_at store copy rebound rebind_each
    reconcile_generation find_index find_elem count
program = tt

fnv_of_a : fnv1a32 (b'a' ∷ []) ≡ 0xe40c292c
unfolding fnv1a32
fnv_of_a = refl

abbrev payload : List ℕ
payload = replicate 432 7

abbrev request : Request
request = record {
  owner_steam_id = 11;
  master_lobby_id = 40;
  expedition_lobby_id = 30;
  authority_commit_seq = 2;
  codec_version = 1;
  requested_revision = 0;
  payload = payload;
  payload_hash32 = 0x5f1a_f9b5;
  publish_pending = true;
  authoritative_replace = false;
  now = 1000;
}

-- A snapshot of the same expedition under the same authority, with other bytes.
abbrev older : HotSnapshot
older = record empty_snapshot {
  valid = true;
  owner_steam_id = 11;
  master_lobby_id = 40;
  expedition_lobby_id = 30;
  authority_commit_seq = 2;
  codec_version = 1;
  snapshot_revision = 4;
  payload_size = 432;
  payload_hash32 = 5;
  payload = replicate 432 8;
}

abbrev table : List HotSnapshot
table =
    older ∷ empty_snapshot ∷ empty_snapshot ∷ empty_snapshot ∷ empty_snapshot ∷ empty_snapshot ∷ []

run_hash : fnv1a32 payload ≡ 0x5f1a_f9b5
unfolding fnv1a32
run_hash = refl

run_store : (store request table).key.snapshot_revision ≡ 5
unfolding program
run_store = refl

run_rejected : (store (record request { requested_revision = 3 }) table).ok ≡ false
unfolding program
run_rejected = refl

table-IsValid : IsValid table
unfolding count
table-IsValid = record { size = refl; once = λ o m e. ground arith }

store-IsValid_example : IsValid (store request table).table
store-IsValid_example = store-IsValid request table table-IsValid

copy-store_example :
    copy (store request table).table (store request table).key
    ≡ some ((store request table).key, payload)
unfolding program
copy-store_example = copy-store request table (omega arith) refl

store-revision_example :
    (s : HotSnapshot) × (find_elem (is_target request) (store request table).table ≡ some s)
    × (4 ≤ s.snapshot_revision)
unfolding find_elem
store-revision_example = store-revision request table older (omega arith) refl refl (omega arith)

-- The local player has become the host, and another authority was committed.
abbrev authority : Authority
authority = record {
  valid = true;
  commit_seq = 3;
  lobby_id = 30;
  master_lobby_id = 40;
  owner_steam_id = 11;
  local_steam_id = 11;
}

run_reconcile :
    get_or (reconcile_generation authority table) 0 empty_snapshot
    ≡ record older { authority_commit_seq = 3; publish_pending = true }
unfolding program
run_reconcile = refl

reconcile_generation_lem_example :
    IsValid (reconcile_generation authority table)
    × (((key_of older).master_lobby_id ≢ authority.master_lobby_id)
          ⊎ ((key_of older).expedition_lobby_id ≢ authority.lobby_id)
        → copy (reconcile_generation authority table) (key_of older) ≡ none)
    × ((key_of older).master_lobby_id ≡ authority.master_lobby_id
        → (key_of older).expedition_lobby_id ≡ authority.lobby_id
        → authority.local_steam_id ≢ authority.owner_steam_id
        → copy (reconcile_generation authority table) (key_of older) ≡ copy table (key_of older))
    × ((key_of older).master_lobby_id ≡ authority.master_lobby_id
        → (key_of older).expedition_lobby_id ≡ authority.lobby_id
        → authority.local_steam_id ≡ authority.owner_steam_id
        → (found : SnapshotKey) (bytes : List ℕ) → copy table (key_of older) ≡ some (found, bytes)
        → copy
            (reconcile_generation authority table)
            (record (key_of older) { authority_commit_seq = authority.commit_seq })
          ≡ some (record found { authority_commit_seq = authority.commit_seq }, bytes))
    × ((i : ℕ)
        → authority.local_steam_id ≡ authority.owner_steam_id
        → (get_or (reconcile_generation authority table) i empty_snapshot).valid ≡ true
        → (get_or (reconcile_generation authority table) i empty_snapshot).publish_pending ≡ true)
reconcile_generation_lem_example =
    reconcile_generation_lem authority table (key_of older) refl table-IsValid
