-- ===== src/Record/Preferred.antt =====
-- What `PreferCachedReconnectIdentityForLocalSteam` of src/reconnect_fix.cpp decides.
use revenant_fix.Prelude.{ℕ, ◌≤◌, ◌<◌, ◌≡◌, ◌≢◌, ◌⊎◌, true}
use revenant_fix.Record.{Entry, record_role_self, record_role_remote}
use revenant_fix.Record.Cache.{Cache}
use revenant_fix.Record.Prefer.{Persisted, Sidecar}

-- The descriptor on disk is valid and names the identity in all its fields.
pub record Confirms (s : Sidecar) (id : Persisted) : Type 0 where
  pub valid : s.valid ≡ true
  pub master : s.master_lobby_id ≡ id.master_lobby_id
  pub expedition : s.expedition_lobby_id ≡ id.lobby_id
  pub host : s.host_steam_id ≡ id.host_steam_id
  pub key : s.record_key ≡ id.record_key
  pub generation : s.client_generation ≡ id.generation
  pub hash : s.identity_hash32 ≡ id.record_hash32

-- What an identity takes from a cached entry: the record's fields, and the later generation. The
-- lobbies and the host are not touched.
pub record IsOverride (id : Persisted) (e : Entry) (out : Persisted) : Type 0 where
  pub record_key : out.record_key ≡ e.record_key
  pub player_index : out.player_index ≡ e.player_index
  pub game_data_id : out.game_data_id ≡ e.game_data_id
  pub party_slot : out.party_slot ≡ e.party_slot
  pub hash : out.record_hash32 ≡ e.native_record_hash32
  pub role : out.record_role ≡ e.identity.record_role
  pub host : out.host_steam_id ≡ id.host_steam_id
  pub expedition : out.lobby_id ≡ id.lobby_id
  pub master : out.master_lobby_id ≡ id.master_lobby_id
  pub later :
      ((out.generation ≡ id.generation) × (e.generation ≤ id.generation))
      ⊎ ((out.generation ≡ e.generation) × (id.generation < e.generation))

-- A valid entry of the player with a key and a fingerprint, for the player or a remote record, and
-- of the selected lobby where both lobbies are known.
pub record IsUsable (steam_id : ℕ) (selected : ℕ) (e : Entry) : Type 0 where
  pub valid : e.valid ≡ true
  pub owner : e.steam_id ≡ steam_id
  pub key : e.record_key ≡ steam_id
  pub hashed : e.native_record_hash32 ≢ 0
  pub role :
      (e.identity.record_role ≡ record_role_self) ⊎ (e.identity.record_role ≡ record_role_remote)
  pub lobby : (selected ≡ 0) ⊎ ((e.lobby_id ≡ 0) ⊎ (e.lobby_id ≡ selected))
