-- ===== src/Peers/Tests.antt =====
-- Runs of the peer tables, and instances of their theorems.
use revenant_fix.Prelude.{ℕ, ◌≡◌, refl, true, false, List, [], ◌∷◌, arith, count, find_index}
use revenant_fix.Peers.{
  Peers, trace_peer_change, mark_snapshots_for_publish, clear_native_admission_for_peer, remember,
  is_active, insert_peer, erase_peer, remove_peer, set_active_effects, set_active, clear_active,
  collect_cleared, zeroed,
}
use revenant_fix.Peers.Active.{is_active-set_active}
use revenant_fix.Peers.Others.{IsValid}
use revenant_fix.Peers.Known.{Once}

program : Unit {0}
unfolding remember is_active insert_peer erase_peer remove_peer set_active_effects set_active
    clear_active collect_cleared zeroed find_index count
program = tt

abbrev table : List ℕ
table = 7 ∷ 8 ∷ 0 ∷ 0 ∷ 0 ∷ 0 ∷ 0 ∷ 0 ∷ []

abbrev peers : Peers
peers = record { local_steam_id = 5; known = table; known_cursor = 0; active = table }

run_activate : set_active peers 9 true ≡ (
  record peers { active = 7 ∷ 8 ∷ 9 ∷ 0 ∷ 0 ∷ 0 ∷ 0 ∷ 0 ∷ [] },
  trace_peer_change 9 true true ∷ mark_snapshots_for_publish ∷ [],
)
unfolding program
run_activate = refl

run_deactivate : set_active peers 7 false ≡ (
  record peers { active = 0 ∷ 8 ∷ 0 ∷ 0 ∷ 0 ∷ 0 ∷ 0 ∷ 0 ∷ [] },
  trace_peer_change 7 false true ∷ clear_native_admission_for_peer 7 ∷ [],
)
unfolding program
run_deactivate = refl

table-Once : Once table
unfolding count
table-Once q h = ground arith

peers-IsValid : IsValid peers
peers-IsValid = record { size = refl; once = table-Once }

is_active-set_active_example : is_active (set_active peers 9 true).0 9 ≡ true
is_active-set_active_example = is_active-set_active peers 9 true refl (omega arith)
