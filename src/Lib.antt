-- ===== src/Lib.antt =====
-- RevenantFix is a library that is loaded into a game. It lets a player who lost the connection come
-- back into a running expedition, keeps the tables that this needs, and repairs some of the game's
-- own state. This development models the parts of it that keep state of their own.
--
-- Parts and files:
--   Peers      src/network_tools.cpp: the known and the active peers (`SetNrscPeerActive`,
--              `IsNrscPeerActive`, `ClearNrscActivePeers`, `RememberNrscPeerSteamId`).
--   Reward     src/reward_fix.cpp: the ring of rewards that were discarded a short time ago.
--   Record     src/reconnect_fix.cpp: the cache of reconnect records, with six active and three
--              inactive entries (Record/Cache), and the choice between the cached and the persisted
--              identity (Record/Prefer).
--   Pgd        src/reconnect_fix.cpp: player game data, its FNV-1a fingerprint, the shape of a
--              transfer, the six hot snapshots (Pgd/Store), and what the commit of an authority
--              does to them (Pgd/Generation, from `ReconcileBhrcFullPgdAuthorityGeneration`).
--   Admission  src/reconnect_fix.cpp: the attempts of returning players that the host admits
--              (Admission/Table): reservation, commit and rollback; and the native events that come
--              in for them (Admission/Events).
--   Transfer   src/reconnect_fix.cpp: player game data sent in chunks (Transfer/Send) and assembled
--              again, with the checks of a packet (Transfer/Check and Transfer/Receive, the
--              function `HandleRevenantFixFullPgdChunk`).
--   Restore    src/reconnect_fix.cpp: the snapshots that a host pins for admitted attempts
--              (Restore/Table) and sends to them (Restore/Deliver, which composes the admission
--              table, the hot snapshots and the sending in chunks).
--   Publish    src/reconnect_fix.cpp: the hot snapshots that a player publishes to the host and that
--              the host relays to the other peers.
--   Deferred   src/reconnect_fix.cpp: the deferred reconnect, a state machine. Its functions are in
--              Deferred/Authority (the probe that takes the intent over), Deferred/Arm
--              (`ArmReconnectIntentFromReason4Cleanup`), Deferred/Cleanup (the detour
--              `HookTeamSessionCleanup` and what it calls) and Deferred/Advance (the tick). What a
--              call can do to the intent is the type of Deferred/Edit, and Deferred/Machine has the
--              runs of all calls in any order.
--   Party      src/core.cpp: the party slots after a member was removed.
--   Ini        src/core.cpp: bytes written to the configuration file in hex, and read back. The
--              Windows calls are parameters.
--   Prelude    what the others share: lists measured by native numbers, searches in tables, signed
--              numbers, bits.
-- The types of all parts are declared in src/core.hpp.
--
-- How the code is read. An array of fixed capacity is a list whose length is part of the invariant; a
-- pointer into it is an index; an entry with `valid == false` is an entry like any other. A loop that
-- stops at its first hit is `find_index` or `find_elem` of Prelude/Find. Counters keep their width,
-- written as a remainder. A reading of the clock is an argument, one for each call of the code, and
-- a call of another component is an element of a list of effects, in the order of the calls. The
-- functions take a lock for as long as they touch a table, so that each is one step. Every loop runs
-- over a table or over bytes, so all functions are structural recursions and none needs fuel.
--
-- How the parts interact. A peer that becomes active has the snapshots marked for publication
-- (Publish); one that becomes inactive (Peers) loses its admission (Admission). A reconciliation
-- with the game's session moves records from the active table to the inactive one (Record). A
-- returning player's request reserves an attempt (Admission); the host pins the snapshot that was
-- stored for the player (Pgd) to the attempt (Restore), and sends it in chunks (Transfer), again and
-- again until the player confirms. A commit of an authority rebinds the snapshots (Pgd/Generation).
-- On the other side, the cleanup of a session arms an intent to come back (Deferred), from the
-- identity on disk or in the cache (Record); ticks bring it to the master lobby, and a probe takes it
-- over.
--
-- Interleavings. A call that locks once is one step. Deferred/Machine lets the steps of all threads
-- follow each other in any order, and a tick that acts on an outdated snapshot is a step of its own;
-- a tick whose snapshot asks for a join is taken to be one step. The counter of serials has 64 bits:
-- where it matters that it does not wrap, the length of the run is bounded in the statement.
--
-- Not modelled: log lines, since they change no state; null pointers where a caller never passes
-- one; hooks, patches and structures of the game, which are not in the repository; files and the
-- Steam interface; the restore ticket and the restore gate, with the parts of
-- `ReconcileBhrcFullPgdAuthorityGeneration` that write them; and the state machines of
-- src/reconnect_fix.cpp that are driven by reading the game's memory. A failed allocation of memory
-- is not modelled either.
pub mod Prelude
pub mod Peers
pub mod Reward
pub mod Record
pub mod Pgd
pub mod Party
pub mod Admission
pub mod Transfer
pub mod Ini
pub mod Deferred
pub mod Restore
pub mod Publish
