-- ===== src/Restore/Table.antt =====
-- The table of pinned restores of src/reconnect_fix.cpp: matching, clearing, copying and pinning.
-- Memory for a copy is taken to be there, and no other thread comes between the locks of one call.
use revenant_fix.Prelude.{
  ℕ, Bool, true, false, ◌&&◌, ◌||◌, not, Option, none, some, List, [], ◌∷◌, ltb, leb, ◌==◌,
  if◌then◌else◌, find_index, find_elem, get_or, set, take, is_some,
}
use revenant_fix.Pgd.{SnapshotKey, fnv1a32, min_payload_size, max_payload_size}
use revenant_fix.Pgd.Store.{copy, matches}
use revenant_fix.Admission.{Attempt, Membership, empty_attempt}
use revenant_fix.Transfer.Send.{is_same_attempt_identity}
use revenant_fix.Restore.{Pinned, empty_pinned, State}

abbrev pub is_returning : Membership → Bool
is_returning m = elim m [ Membership.returning_same_b ↦ true | _ ↦ false ]

-- `BhrcFullPgdPinnedRestoreMatchesAttempt`.
unfoldable pub is_pinned_for : Bool → Attempt → Pinned → Bool
is_pinned_for require_serial a p =
    p.valid
    && (is_some p.payload
        && ((not require_serial || p.reservation_serial == a.reservation_serial)
            && (p.steam_id == a.steam_id
                && (p.client_generation == a.client_generation
                    && (p.key.owner_steam_id == a.steam_id
                        && (p.key.master_lobby_id == a.master_lobby_id
                            && (p.key.expedition_lobby_id == a.expedition_lobby_id
                                && (p.key.authority_commit_seq == a.authority_commit_seq
                                    && (matches a.full_pgd_codec_version p.key.codec_version
                                        && (matches a.full_pgd_snapshot_revision
                                              p.key.snapshot_revision
                                            && (matches a.full_pgd_payload_size p.key.payload_size
                                                && matches a.full_pgd_snapshot_hash32
                                                    p.key.payload_hash32)))))))))))

-- The loops that reset the entries which pass a test.
unfoldable pub reset_if : (Pinned → Bool) → List Pinned → List Pinned
reset_if q [] = []
reset_if q (p ∷ ps) = (if q p then empty_pinned else p) ∷ reset_if q ps

abbrev pub of_serial : ℕ → Pinned → Bool
of_serial serial p = p.valid && p.reservation_serial == serial

abbrev pub of_peer : ℕ → Pinned → Bool
of_peer steam_id p = p.valid && p.steam_id == steam_id

-- `ClearBhrcFullPgdPinnedRestoreForSerial`.
unfoldable pub clear_for_serial : ℕ → List Pinned → List Pinned
clear_for_serial serial ps = if serial == 0 then ps else reset_if (of_serial serial) ps

-- `ClearBhrcFullPgdPinnedRestoresForPeer`.
unfoldable pub clear_for_peer : ℕ → List Pinned → List Pinned
clear_for_peer steam_id ps = if steam_id == 0 then ps else reset_if (of_peer steam_id) ps

-- `ClearAllBhrcFullPgdPinnedRestores`.
unfoldable pub clear_all : List Pinned → List Pinned
clear_all ps = reset_if (λ p. true) ps

-- A restore that is pinned for exactly this attempt, its nonce included.
unfoldable pub is_own : Attempt → Pinned → Bool
is_own a p = is_pinned_for true a p && p.request_nonce == a.request_nonce

-- The test of the loop of a copy.
unfoldable pub is_copied : Attempt → Pinned → Bool
is_copied a p =
    is_own a p
    && (leb min_payload_size p.key.payload_size && leb p.key.payload_size max_payload_size)

abbrev pub bytes_of : Pinned → List ℕ
bytes_of p = elim p.payload [ none ↦ [] | some bytes ↦ take p.key.payload_size bytes ]

-- `BhrcFnv1a32(copy, key.payload_size) == key.payload_hash32`.
unfoldable pub is_intact : SnapshotKey → List ℕ → Bool
is_intact key bytes = fnv1a32 (take key.payload_size bytes) == key.payload_hash32

abbrev pub checked : SnapshotKey → List ℕ → Option (SnapshotKey × List ℕ)
checked key bytes = if is_intact key bytes then some (key, bytes) else none

-- `CopyBhrcFullPgdPinnedRestoreForAttempt`.
unfoldable pub copy_pinned : Attempt → List Pinned → Option (SnapshotKey × List ℕ)
copy_pinned a ps =
    if not a.valid || a.reservation_serial == 0
    then none
    else elim (find_elem (is_copied a) ps) [ none ↦ none | some p ↦ checked p.key (bytes_of p) ]

-- The key that the attempt asks for.
abbrev pub requested_key : Attempt → SnapshotKey
requested_key a = record {
  owner_steam_id = a.steam_id;
  master_lobby_id = a.master_lobby_id;
  expedition_lobby_id = a.expedition_lobby_id;
  authority_commit_seq = a.authority_commit_seq;
  codec_version = a.full_pgd_codec_version;
  snapshot_revision = a.full_pgd_snapshot_revision;
  payload_size = a.full_pgd_payload_size;
  payload_hash32 = a.full_pgd_snapshot_hash32;
}

-- The four fields by which an attempt names its snapshot.
unfoldable pub is_snapshot_of : Attempt → SnapshotKey → Bool
is_snapshot_of a key =
    a.full_pgd_codec_version == key.codec_version
    && (a.full_pgd_snapshot_revision == key.snapshot_revision
        && (a.full_pgd_payload_size == key.payload_size
            && a.full_pgd_snapshot_hash32 == key.payload_hash32))

-- The loop for an earlier restore of the same player and snapshot.
unfoldable pub inherited : Attempt → List Pinned → Option (SnapshotKey × List ℕ)
inherited a ps =
    if a.full_pgd_snapshot_revision == 0
    then none
    else elim (find_elem (λ p. is_pinned_for false a p && is_snapshot_of a p.key) ps) [
      | none ↦ none
      | some p ↦ some (p.key, bytes_of p)
    ]

-- The snapshot that is to be pinned, once its fingerprint was checked.
unfoldable pub candidate : Attempt → State → Option (SnapshotKey × List ℕ)
candidate a s = elim (inherited a s.pinned) [
  | some (key, bytes) ↦ checked key bytes
  | none ↦ elim (copy s.snapshots (requested_key a)) [
    | none ↦ none
    | some (key, bytes) ↦ checked key bytes
  ]
]

-- The loop for the place: the restore of the attempt itself, or the first free place before it.
unfoldable pub choose_place : Attempt → List Pinned → Option ℕ
choose_place a ps = elim (find_index (is_own a) ps) [
  | some i ↦ some i
  | none ↦ find_index (λ p. not p.valid) ps
]

abbrev pub pinned_at : Attempt → SnapshotKey → List ℕ → Pinned
pinned_at a key bytes = record {
  valid = true;
  reservation_serial = a.reservation_serial;
  steam_id = a.steam_id;
  request_nonce = a.request_nonce;
  client_generation = a.client_generation;
  key = key;
  payload = some bytes;
}

-- The attempt once it names its snapshot.
abbrev pub named : SnapshotKey → Attempt → Attempt
named key a = record a {
  full_pgd_codec_version = key.codec_version;
  full_pgd_snapshot_revision = key.snapshot_revision;
  full_pgd_payload_size = key.payload_size;
  full_pgd_snapshot_hash32 = key.payload_hash32;
}

-- The last locked part, for the live attempt at `j`.
unfoldable pub install : ℕ → ℕ → SnapshotKey → List ℕ → State → Option SnapshotKey × State
install now j key bytes s =
    let live : Attempt = get_or s.attempts j empty_attempt in
    if ltb now live.expires_tick_ms
      && (live.full_pgd_snapshot_revision == 0 || is_snapshot_of live key)
    then elim (choose_place live s.pinned) [
      | none ↦ (none, s)
      | some i ↦ (
        some key,
        record s {
          attempts = set s.attempts j (named key live);
          pinned = set s.pinned i (pinned_at live key bytes);
        },
      )
    ]
    else (none, s)

-- What the function reads of the clock, in this order.
pub record PinClock : Type 0 where
  pub first : ℕ
  pub second : ℕ
  pub third : ℕ

-- The function from where the attempt was found at `j`.
unfoldable pub pin_at : PinClock → ℕ → State → Option SnapshotKey × State
pin_at c j s =
    let current : Attempt = get_or s.attempts j empty_attempt in
    if leb current.expires_tick_ms c.second
    then (none, s)
    else elim (find_elem (is_own current) s.pinned) [
      | some p ↦ (some p.key, s)
      | none ↦ elim (candidate current s) [
        | none ↦ (none, s)
        | some (key, bytes) ↦ install c.third j key bytes s
      ]
    ]

-- The checks of the argument.
unfoldable pub is_pinnable : ℕ → Attempt → Bool
is_pinnable now a =
    a.valid
    && (not (a.reservation_serial == 0)
        && (is_returning a.membership && (not (a.steam_id == 0) && ltb now a.expires_tick_ms)))

-- `PinBhrcFullPgdRestoreSnapshotForAttempt`: the key in `*out_requested`, `none` where the function
-- returns false, and the state.
unfoldable pub pin : PinClock → Attempt → State → Option SnapshotKey × State
pin c a s =
    if not (is_pinnable c.first a)
    then (none, s)
    else elim (find_index (λ current. is_same_attempt_identity current a) s.attempts) [
      | none ↦ (none, s)
      | some j ↦ pin_at c j s
    ]
