-- ===== src/Peers.antt =====
-- The peer tables of src/network_tools.cpp: the eight identifiers that were ever seen, and the
-- eight that are active now. 0 marks a free place. What a call makes other components do is
-- returned as a list of effects, in the order of the calls. The log lines are left out.
pub mod Active
pub mod Others
pub mod Clear
pub mod Known
mod Tests
use revenant_fix.Prelude.{
  ℕ, zero, ◌+◌, ◌%◌, ◌^◌, Bool, true, false, ◌&&◌, ◌||◌, not, Option, none, some, List, [], ◌∷◌,
  ◌++◌, map, ltb, ◌==◌, if◌then◌else◌, set, get_or, find_index, is_some,
}

-- `kObservedPartyMemberSlots`.
abbrev pub observed_party_member_slots : ℕ
observed_party_member_slots = 6

pub record Peers : Type 0 where
  pub local_steam_id : ℕ
  pub known : List ℕ
  pub known_cursor : ℕ
  pub active : List ℕ

-- The calls into the other components.
pub data Effect : Type 0 where
  trace_peer_change : ℕ → Bool → Bool → Effect
  mark_snapshots_for_publish : Effect
  clear_native_admission_for_peer : ℕ → Effect
  clear_native_admission_state : Effect

-- The test of the loops over a table.
abbrev pub is : ℕ → ℕ → Bool
is steam_id known = known == steam_id

-- `steam_id == 0 || steam_id == local_steam_id`.
abbrev pub is_ignored : Peers → ℕ → Bool
is_ignored s steam_id = steam_id == 0 || steam_id == s.local_steam_id

-- `RememberNrscPeerSteamId`. The cursor is a `uint32_t`, the table has `_countof` 8.
unfoldable pub remember : Peers → ℕ → Peers
remember s steam_id =
    if is_ignored s steam_id
    then s
    else if is_some (find_index (is steam_id) s.known)
    then s
    else elim (find_index (is 0) s.known) [
      | some i ↦ record s { known = set s.known i steam_id }
      | none ↦ record s {
        known = set s.known (s.known_cursor % 8) steam_id;
        known_cursor = (s.known_cursor + 1) % 2 ^ 32;
      }
    ]

-- `IsNrscPeerActive`.
unfoldable pub is_active : Peers → ℕ → Bool
is_active s steam_id =
    if is_ignored s steam_id then false else is_some (find_index (is steam_id) s.active)

-- What the locked part of `SetNrscPeerActive` leaves behind.
pub record Update : Type 0 where
  pub table : List ℕ
  pub changed : Bool
  pub displaced_peer : ℕ

-- The branch `active`: present already, or the first free place, or the place 0.
unfoldable pub insert_peer : List ℕ → ℕ → Update
insert_peer xs steam_id = elim (find_index (is steam_id) xs) [
  | some i ↦ record { table = xs; changed = false; displaced_peer = 0 }
  | none ↦ elim (find_index (is 0) xs) [
    | some i ↦ record { table = set xs i steam_id; changed = true; displaced_peer = 0 }
    | none ↦ record { table = set xs 0 steam_id; changed = true; displaced_peer = get_or xs 0 0 }
  ]
]

-- The loop of the other branch, which clears every place that holds the peer.
unfoldable pub erase_peer : List ℕ → ℕ → List ℕ
erase_peer [] steam_id = []
erase_peer (p ∷ ps) steam_id = (if p == steam_id then 0 else p) ∷ erase_peer ps steam_id

unfoldable pub remove_peer : List ℕ → ℕ → Update
remove_peer xs steam_id = record {
  table = erase_peer xs steam_id;
  changed = is_some (find_index (is steam_id) xs);
  displaced_peer = 0;
}

abbrev pub guarded : Bool → List Effect → List Effect
guarded b es = if b then es else []

-- The calls that follow the locked part.
unfoldable pub set_active_effects : ℕ → Bool → Update → List Effect
set_active_effects steam_id active u =
    guarded (not (u.displaced_peer == 0)) (trace_peer_change u.displaced_peer false true ∷ [])
    ++ (guarded (u.changed || not active) (trace_peer_change steam_id active u.changed ∷ [])
        ++ (guarded (active && u.changed) (mark_snapshots_for_publish ∷ [])
            ++ guarded (not active) (clear_native_admission_for_peer steam_id ∷ [])))

-- `SetNrscPeerActive`.
unfoldable pub set_active : Peers → ℕ → Bool → Peers × List Effect
set_active s steam_id active =
    if is_ignored s steam_id
    then (s, [])
    else (let u : Update =
          if active then insert_peer s.active steam_id else remove_peer s.active steam_id in
        (record s { active = u.table }, set_active_effects steam_id active u))

-- The loop of `ClearNrscActivePeers`: the counter `cleared`, and the first six cleared peers.
unfoldable pub collect_cleared : ℕ → List ℕ → ℕ × List ℕ
collect_cleared cleared [] = (cleared, [])
collect_cleared cleared (p ∷ ps) =
    let (total, later) = collect_cleared (if p == 0 then cleared else cleared + 1) ps in
    (total, (if not (p == 0) && ltb cleared observed_party_member_slots then p ∷ later else later))

unfoldable pub zeroed : List ℕ → List ℕ
zeroed [] = []
zeroed (p ∷ ps) = 0 ∷ zeroed ps

-- `ClearNrscActivePeers`.
unfoldable pub clear_active : Peers → Peers × List Effect
clear_active s =
    let (cleared, peers) = collect_cleared 0 s.active in
    (
      record s { active = zeroed s.active },
      guarded (cleared == 0) (trace_peer_change 0 false false ∷ [])
          ++ (map (λ p. trace_peer_change p false true) peers
              ++ (clear_native_admission_state ∷ map clear_native_admission_for_peer peers)),
    )
