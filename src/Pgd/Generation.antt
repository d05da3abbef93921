-- ===== src/Pgd/Generation.antt =====
-- The part of `ReconcileBhrcFullPgdAuthorityGeneration` of src/reconnect_fix.cpp that writes the hot
-- snapshots, when an authority was committed. Its later parts write the restore ticket and the restore
-- gate, which are not modelled.
pub mod Rebound
use revenant_fix.Prelude.{ℕ, Bool, true, ◌||◌, ◌&&◌, not, List, [], ◌∷◌, ◌==◌, if◌then◌else◌}
use revenant_fix.Pgd.{HotSnapshot, empty_snapshot}

-- The fields of `BhrcNativeExpeditionAuthorityState` that are read there.
pub record Authority : Type 0 where
  pub valid : Bool
  pub commit_seq : ℕ
  pub lobby_id : ℕ
  pub master_lobby_id : ℕ
  pub owner_steam_id : ℕ
  pub local_steam_id : ℕ

-- The body of the loop.
unfoldable pub rebound : Authority → HotSnapshot → HotSnapshot
rebound a s =
    if not s.valid
    then s
    else if not (s.master_lobby_id == a.master_lobby_id)
        || not (s.expedition_lobby_id == a.lobby_id)
    then empty_snapshot
    else if a.local_steam_id == a.owner_steam_id
        && (s.master_lobby_id == a.master_lobby_id && s.expedition_lobby_id == a.lobby_id)
    then record s { authority_commit_seq = a.commit_seq; publish_pending = true }
    else s

unfoldable pub rebind_each : Authority → List HotSnapshot → List HotSnapshot
rebind_each a [] = []
rebind_each a (s ∷ rest) = rebound a s ∷ rebind_each a rest

-- The function, as far as the table of hot snapshots goes.
unfoldable pub reconcile_generation : Authority → List HotSnapshot → List HotSnapshot
reconcile_generation a xs = if not a.valid then xs else rebind_each a xs
