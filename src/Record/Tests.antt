-- ===== src/Record/Tests.antt =====
-- Runs of the record cache, and instances of its theorems.
use revenant_fix.Prelude.{
  keep_bit, ℕ, ◌≡◌, ◌↔◌, refl, Bool, true, none, some, [], ◌∷◌, ◌==◌, arith, count, find_index,
  find_elem, get_or, shift_out, pos,
}
use revenant_fix.Record.{
  MembershipState, Entry, PlayerIdentity, empty_entry, empty_identity, native_live, minus_one,
}
use revenant_fix.Record.Cache.{
  Cache, next32, has, is_free, find_active, find_inactive, find_cached, snapshot, first_free_active,
  remove_inactive_at, release_oldest, allocate_active, promoted, demoted, drop_inactive,
  insert_inactive, move_to_inactive, set_transport, missing_live, move_all, reconcile,
}
use revenant_fix.Record.Inv.{IsValid}
use revenant_fix.Record.Move.{move_to_inactive_lem, move_to_inactive-IsValid}
use revenant_fix.Record.Allocate.{allocate_active-promotes, allocate_active-none}
use revenant_fix.Record.Reconcile.{reconcile_lem}
use revenant_fix.Record.Prefer.{
  Persisted, Sidecar, is_complete, is_exact, differs, lobby_mismatch, prefer_entry, prefer,
}

program : Unit {0}
unfolding find_active find_inactive find_cached snapshot first_free_active remove_inactive_at
    release_oldest allocate_active drop_inactive insert_inactive move_to_inactive set_transport
    missing_live move_all reconcile find_index find_elem count shift_out is_complete is_exact
    differs lobby_mismatch prefer_entry prefer
program = tt

abbrev identity : PlayerIdentity
identity = record empty_identity {
  evidence_mask = 67;
  valid_mask = 3;
  record_role = 1;
  membership_state = native_live;
}

abbrev first : Entry
first = record empty_entry {
  valid = true;
  steam_id = 11;
  record_key = 11;
  game_data_id = pos 4;
  party_slot = pos 0;
  native_record_hash32 = 99;
  generation = 7;
  identity = identity;
}

abbrev second : Entry
second = record first { steam_id = 12; record_key = 12 }

abbrev third : Entry
third = record first { steam_id = 13; record_key = 13; is_inactive = true; inactive_since_ms = 5 }

abbrev cache : Cache
cache = record {
  active = first ∷ second ∷ empty_entry ∷ empty_entry ∷ empty_entry ∷ empty_entry ∷ [];
  inactive = third ∷ empty_entry ∷ empty_entry ∷ [];
  generation = 0;
}

run_move : move_to_inactive cache 11 100 101 ≡ record {
  active = empty_entry ∷ second ∷ empty_entry ∷ empty_entry ∷ empty_entry ∷ empty_entry ∷ [];
  inactive = third ∷ demoted first 100 101 ∷ empty_entry ∷ [];
  generation = 1;
}
unfolding program
run_move = refl

run_promote : allocate_active cache 13 ≡ (
  some 2,
  record {
    active = first ∷ second ∷ promoted third ∷ empty_entry ∷ empty_entry ∷ empty_entry ∷ [];
    inactive = empty_entry ∷ empty_entry ∷ empty_entry ∷ [];
    generation = 1;
  },
)
unfolding program
run_promote = refl

cache-IsValid : IsValid cache
unfolding count
cache-IsValid = record { active_size = refl; inactive_size = refl; once = λ q h. ground arith }

move_to_inactive_lem_example :
    (find_elem (has 11) (move_to_inactive cache 11 100 101).active ≡ none)
    × (find_elem (has 11) (move_to_inactive cache 11 100 101).inactive
        ≡ some (record first {
          is_inactive = true;
          inactive_since_ms = 100;
          identity = record (first.identity) {
            membership_state = MembershipState.inactive;
            evidence_mask = keep_bit first.identity.evidence_mask 6;
            observed_ms = 101;
            snapshot_revision = next32 first.identity.snapshot_revision;
          };
        }))
    × ((move_to_inactive cache 11 100 101).generation ≡ 1)
unfolding find_elem
move_to_inactive_lem_example =
    move_to_inactive_lem cache 11 100 101 first cache-IsValid (omega arith) refl

move_to_inactive-IsValid_example : IsValid (move_to_inactive cache 11 100 101)
move_to_inactive-IsValid_example = move_to_inactive-IsValid cache 11 100 101 cache-IsValid

allocate_active-promotes_example :
    ((slot : ℕ) × ((allocate_active cache 13).0 ≡ some slot)
      × (get_or (allocate_active cache 13).1.active slot empty_entry ≡ promoted third))
    × (find_elem (has 13) (allocate_active cache 13).1.active ≡ some (promoted third))
    × (find_elem (has 13) (allocate_active cache 13).1.inactive ≡ none)
unfolding find_elem first_free_active find_index
allocate_active-promotes_example =
    allocate_active-promotes cache 13 third cache-IsValid (omega arith) refl (λ h. cc)

allocate_active-none_example :
    ((allocate_active cache 14).0 ≡ none)
    ↔ ((count (has 14) cache.active ≡ 0) × (count is_free cache.active ≡ 0))
allocate_active-none_example = allocate_active-none cache 14 cache-IsValid (omega arith)

abbrev only_second : ℕ → Bool
only_second key = key == 12

reconcile_lem_example :
    (find_elem (has 11) (reconcile only_second (λ n. (n, n)) cache).active ≡ none)
    × IsValid (reconcile only_second (λ n. (n, n)) cache)
unfolding find_elem
reconcile_lem_example =
    reconcile_lem only_second (λ n. (n, n)) cache 11 first cache-IsValid (omega arith) refl

abbrev stored : Persisted
stored = record {
  record_key = 11;
  player_index = minus_one;
  game_data_id = pos 3;
  party_slot = pos 0;
  record_hash32 = 98;
  generation = 6;
  host_steam_id = 20;
  lobby_id = 30;
  master_lobby_id = 40;
  record_role = 1;
}

abbrev sidecar : Sidecar
sidecar = record {
  valid = true;
  master_lobby_id = 40;
  expedition_lobby_id = 30;
  host_steam_id = 20;
  record_key = 11;
  client_generation = 6;
  identity_hash32 = 98;
}

abbrev local_steam_id : ℕ
local_steam_id = 11
