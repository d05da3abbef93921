-- ===== src/Record/Prefer.antt =====
-- `PreferCachedReconnectIdentityForLocalSteam` of src/reconnect_fix.cpp: whether the identity that
-- was read from disk is replaced by the cached one of the local player. What
-- `LoadBhrcNativeDescriptorSidecar` reads is an argument, invalid where it fails.
use revenant_fix.Prelude.{
  ℕ, Bool, true, false, ◌&&◌, ◌||◌, not, none, some, ℤ, int_eq, is_nonneg, ltb, ◌==◌, if◌then◌else◌,
  has_bit,
}
use revenant_fix.Record.{Entry, minus_one, record_role_self, record_role_remote}
use revenant_fix.Record.Cache.{Cache, deref, find_cached}

-- `PersistedReconnectIdentity`.
pub record Persisted : Type 0 where
  pub record_key : ℕ
  pub player_index : ℤ
  pub game_data_id : ℤ
  pub party_slot : ℤ
  pub record_hash32 : ℕ
  pub generation : ℕ
  pub host_steam_id : ℕ
  pub lobby_id : ℕ
  pub master_lobby_id : ℕ
  pub record_role : ℕ

-- The fields of `BhrcNativeDescriptorSidecar` that are compared.
pub record Sidecar : Type 0 where
  pub valid : Bool
  pub master_lobby_id : ℕ
  pub expedition_lobby_id : ℕ
  pub host_steam_id : ℕ
  pub record_key : ℕ
  pub client_generation : ℕ
  pub identity_hash32 : ℕ

-- `IsBhrcReconnectCacheEntryComplete`. The mask test asks for both of the bits 0 and 1.
unfoldable pub is_complete : ℕ → Entry → Bool
is_complete local_steam_id e =
    let local_self_identity : Bool =
      e.valid
      && (e.identity.record_role == record_role_self
          && (not (e.steam_id == 0)
              && (e.steam_id == local_steam_id && e.record_key == e.steam_id))) in
    let local_self_native_proof : Bool =
      local_self_identity
      && (int_eq e.player_index minus_one
          && ((has_bit e.identity.valid_mask 0 && has_bit e.identity.valid_mask 1)
              && has_bit e.identity.evidence_mask 1)) in
    let remote_identity : Bool = e.valid && e.identity.record_role == record_role_remote in
    e.valid
    && (not (e.steam_id == 0)
        && (e.record_key == e.steam_id
            && (is_nonneg e.game_data_id
                && (is_nonneg e.party_slot
                    && (((local_self_native_proof && int_eq e.player_index minus_one)
                          || (remote_identity && is_nonneg e.player_index))
                        && not (e.native_record_hash32 == 0))))))

-- `persisted_transaction_exact`.
unfoldable pub is_exact : Sidecar → Persisted → Bool
is_exact s id =
    s.valid
    && (s.master_lobby_id == id.master_lobby_id
        && (s.expedition_lobby_id == id.lobby_id
            && (s.host_steam_id == id.host_steam_id
                && (s.record_key == id.record_key
                    && (s.client_generation == id.generation
                        && s.identity_hash32 == id.record_hash32)))))

-- `cache_differs_from_persisted_transaction`.
unfoldable pub differs : Persisted → Entry → Bool
differs id e =
    not (id.record_key == e.record_key)
    || (not (int_eq id.player_index e.player_index)
        || (not (int_eq id.game_data_id e.game_data_id)
            || (not (int_eq id.party_slot e.party_slot)
                || (not (id.record_hash32 == e.native_record_hash32)
                    || (not (id.record_role == e.identity.record_role)
                        || ltb id.generation e.generation)))))

-- The assignments at the end.
abbrev pub override : Persisted → Entry → Persisted
override id e = record id {
  record_key = e.record_key;
  player_index = e.player_index;
  game_data_id = e.game_data_id;
  party_slot = e.party_slot;
  record_hash32 = e.native_record_hash32;
  record_role = e.identity.record_role;
  generation = if ltb id.generation e.generation then e.generation else id.generation;
}

unfoldable pub lobby_mismatch : ℕ → Entry → Bool
lobby_mismatch selected e =
    not (selected == 0) && (not (e.lobby_id == 0) && not (e.lobby_id == selected))

-- The function after its lookup: what it returns, and what `*id` holds.
unfoldable pub prefer_entry : ℕ → Sidecar → ℕ → Persisted → Entry → Bool × Persisted
prefer_entry local_steam_id sidecar selected id e =
    if not (is_complete local_steam_id e)
    then (false, id)
    else if lobby_mismatch selected e
    then (false, id)
    else if is_exact sidecar id && differs id e
    then (false, id)
    else (true, override id e)

-- `PreferCachedReconnectIdentityForLocalSteam`, for an `id` that is no null pointer.
unfoldable pub prefer : ℕ → Cache → Sidecar → ℕ → Persisted → Bool × Persisted
prefer local_steam_id c sidecar selected id =
    if local_steam_id == 0 then (false, id) else elim (find_cached c local_steam_id) [
      | none ↦ (false, id)
      | some p ↦ prefer_entry local_steam_id sidecar selected id (deref c p)
    ]
