-- ===== src/Lib.antt =====
-- agent-scale: the control plane and what runs around it. `as-control` (crates/as-control) keeps who
-- is registered: clients, the edges that they own, relays, schedulers (provisioners), pending and
-- used invitations, and the revocations of relay credentials, in memory and in a SQLite database.
-- Nodes enrol with an invitation's token, then poll for a node map that Control signs; relays
-- (crates/as-relay) poll for revocations and admit a node by the credential in its map, less what is
-- revoked. Clients and edges exchange frames (crates/transport). An edge keeps a registry of MCP
-- servers (crates/as-edge), and `agent-scale mcp sync` keeps a project's configuration files in step
-- with the registries (crates/agent-scale).
--
-- How the parts interact: every request checks signatures and times first, without the state. Then
-- one section under the state lock reads the state and either answers or hands one delta to
-- `commit_delta`, which runs the database transaction, applies the delta in memory, advances the
-- revisions and wakes the watchers. A section is here a function from the state to a decision
-- (answer, or commit with the reply to compute after), and `run_section` runs it on a store.
--
-- Files, with the code that each models (paths from the repository's root):
--   Base: names passed on, and helpers. Base/Tests: Boolean tests. Base/Results: results, do blocks
--     and postconditions. Base/Words: u64 and i64. Base/Lists, Base/Lookups: iterators and tables.
--     Base/Texts: strip_prefix and split_once. Base/Bytes: sub-slices and the layouts of integers.
--     Base/Same: tables that differ in their order. Base/Sorting: sorts. Base/Maps: maps.
--   Control: crates/as-control/src/main.rs, with the messages of crates/control-api/src/lib.rs and
--     crates/relay-api/src/lib.rs in Control/Wire, and the functions of libraries in
--     Control/Platform. Control/State: ControlState, StateDelta. Control/Commit: commit_delta.
--     Control/Claim: claim. Control/Invites: build_invite and the token checks. Control/Requests:
--     client_edge_invite, client_edge_remove. Control/Authorization: provisioner_request and
--     crates/control-api/src/provisioner.rs. Control/Provisioner: dispatch_provisioner_mutation.
--     Control/Admin: dispatch_local_admin. Control/Removal: revocation_change. Control/Map:
--     signed_map. Control/Upkeep: renewals, ports, cleanups. Control/Checks: the validations.
--     Control/Watch: the revocation update of relay_watch. Control/Registry: WatchRegistry.
--   Database: crates/as-control/src/db.rs and schema.sql. Database/Tables: the rows.
--     Database/Statements: each statement with its constraints. Database/Apply: apply_delta_sync.
--     Database/Load: load. Database/Sync: apply_sync. The others relate the tables
--     to the state in memory (Agreement, Changes, Durable, Restart, Diff, Cleaned) through operations
--     and restarts (Life).
--   Relay: crates/as-relay/src/main.rs. Relay/Access: validate_credential, validate_revocations.
--     Relay/Update: apply_revocation_update, on_connect, revoke_all. Relay/Poll: poll_control.
--     Relay/Send: send_control.
--     Relay/Held, Merge, Revoked and Forever: what updates and restarts keep. Polls and Watched:
--     what the watch does.
--   Transport: crates/transport/src/lib.rs. Transport/Frame: header, split_header, the frames of both
--     wires. Transport/Datagram: the encoding of UDP packets. RoundTrip, Exact and Packets: that they
--     are read as they were written.
--   Sync: crates/agent-scale/src/mcp_sync.rs. Sync/Reconcile: reconcile. Sync/Journal: the journal of
--     the files and its recovery. Rounds, Writes, Synced, Again, Recovery and Crashes: their laws.
--   Edge: crates/as-edge/src/mcp_registry.rs. Edge/Registry: RegistryStore. Edge/Store: its file as a
--     map.
--   Invariant: the invariant of the state (Tables), that every change, section and operation keeps
--     it, and the runs of Control (Reach).
--   Enrolment, Removal, Provisioning, Maps, Retention, Watches, Texts, Relay/Denied and Relay/Feed:
--     what the operations promise.
--   Examples: a concrete platform, store, database, relay, stream and project, with the
--     theorems at concrete inputs.
--
-- Choices. Bytes are texts in messages and files, and numbers below 256 in frames. A u64 is a natural
-- number with its checked or saturating additions written out; an i64 is its distance from i64::MIN.
-- Clock readings and random values are arguments, one for each place where the code reads them. There
-- is no fuel: all loops are over lists. Each section of Control holds the state lock from its first
-- reading to its commit, so that the runs are sequences of operations in the order of the lock. The
-- runs take the transaction as a parameter that may refuse any delta; Database gives it. Constraints
-- are checked after each statement, a transaction that fails leaves the tables as they were, and what
-- else SQLite or a disk may refuse is a parameter. A file is replaced at once, as the code does by
-- renaming, and a crash stops a call between two of its writes. Maps are lists of entries.
--
-- Not modelled: of the database the first write of a state and the migrations; the long polls, the
-- admission queues, the listing commands and the command lines; a relay's enrolment and
-- certificates; the endpoints and downloads of transport; the formats of the configuration files;
-- the other files of as-edge and agent-scale, which run processes and connections; core, relay-dev,
-- fd-lib and rg-lib. Ed25519, SHA-256, JSON, base64url, hexadecimal, URLs and certificates are
-- fields of Platform or parameters.
pub mod Base
pub mod Control
pub mod Invariant
pub mod Enrolment
pub mod Removal
pub mod Maps
pub mod Retention
pub mod Provisioning
pub mod Watches
pub mod Texts
pub mod Relay
pub mod Examples
pub mod Transport
pub mod Database
pub mod Sync
pub mod Edge
