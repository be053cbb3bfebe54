-- ===== src/Lib.antt =====
-- The session server of p2psession: pairs and groups of nodes meet in a session under a join code,
-- are let in by a token and a proof of identity, and exchange end-to-end encrypted frames that the
-- server forwards without reading them.
--
-- Parts, and the files that model them
--   Protocol            internal/protocol: the modes, states and roles, and (Protocol/Frame) the
--                       binary frame of the data plane, `EncodeFrame`, `ParseFrame`, `HeaderLen`.
--   Storage             internal/storage/store.go and memory.go: the records and the interface
--                       `Store`; Memory has the methods of `MemoryStore`, Admission the two branches
--                       of its `Join`, Ids `newMemberID`, Listing what `List` does.
--   Storage/Sqlite      internal/storage/sqlite.go: the rows of the two tables (Sqlite), the reading
--                       and writing of one member or session (Rows), `Create` and `Join` (Entry) and
--                       the other methods (Calls) of `SQLiteStore`.
--   Auth                internal/auth: join tokens and codes (Token), the join proof (Identity), the
--                       issue of tickets (Ticket) and their verification (Verify).
--   Session             internal/session: the service over any `Store`: Create, Join, Query, Change
--                       and Prune hold its methods.
--   Member              internal/member/hub.go: connections, their queues, and rooms: Attach, Deliver,
--                       Members and Close hold the methods of `Hub`.
--   Relay               internal/relay/relay.go: `Forward` and its three kinds of frames.
--   Server              internal/server/server.go: the limits per address (`bucket`, and
--                       Server/Window what they let through), the mapping of errors to statuses, the
--                       checks of a request's origin, address and ticket.
--   Client              pkg/sessionclient: Client/Stream has the methods of `Stream`, Chunks what
--                       `Write` and `Read` do with long data, Behind, Arrival and Delivery the order
--                       of frames; Client/Cipher has the methods of `cryptoState`, Shared the key that
--                       two members share.
--   Base                the shared helpers: results, lists, dictionaries, bytes, texts.
--   Scenarios           examples on which the theorems are applied.
-- The files below a part that name no operation hold its proofs: Storage/Invariant the invariant of
-- the store in memory, Storage/Sqlite/Refine and what it uses the comparison of the two stores
-- (Agree is the relation between them, Columns the round trip of the columns, Order and Canonical the
-- order of members), Storage/Capacity and Session/Approval the cap of active members, Session/Sweep,
-- Session/Elsewhere, Session/Pass and Session/Idle the collection of sessions, Storage/Listing/Whole
-- what the list of all sessions holds, Relay/Rules who receives what.
--
-- How they interact. The service takes the store as a record of operations, which
-- Storage.Memory.memory and Storage.Sqlite.Calls.sqlite fill; the relay takes the membership as a
-- record of two functions, which Session/Query models, and forwards through the hub. A method that
-- holds a mutex is one step of explicit state, and an error leaves the state as it was. Records go in
-- and out of the store as copies, so they are values; the hub shares connections and online members
-- through pointers, so these stand in heaps. `Forward` calls the membership and the hub several times
-- without a lock of its own; it is modelled as it runs alone.
--
-- Representation. A time or a duration is a number of nanoseconds, and 0 is Go's zero time; a
-- negative duration that is only compared with a positive bound is 0. Bytes and the integers of
-- fixed width are numbers, with the wrap written out (`freeIndex`, the relay's counters); a frame's
-- fields are in range by hypothesis, or by Protocol/Frame/Range. Texts are those of ASCII, as far as
-- case and blanks are concerned. A Go map is an association list, in one of the orders in which Go
-- may range over it. What a call reads from its surroundings (its context, the clock, random bytes)
-- is the record Env. SHA-256, HMAC, Ed25519, base32 and base64 are the functions of the record Crypto;
-- of them only IsBase64 of Auth/Verify/Issued is assumed, and only there. X25519, HKDF and
-- ChaCha20-Poly1305 are those of the record Primitives, with the laws IsSound. An SQL statement is what
-- SQL says of it over the rows of the tables, a transaction is one step, and an int64 column holds the
-- number of its 64 bits; encoding/json is the record Json, whose law IsJson is that a slice which is
-- not empty reads back from its text.
--
-- Fuel. `freeIndex` runs for 65536 rounds, since its uint16 comes back to 0 after 65535. The second
-- loop of `newMemberID` has no bound in the code and runs here for one round more than the session
-- has members, and gives nothing when the rounds run out; among that many names one is free. The loop of a
-- stream's `deliver` runs for 65537 rounds, since each takes one of at most 65536 keys from the buffer,
-- and that of `Write` for one round more than there are bytes.
--
-- Not modelled: the HTTP and WebSocket handlers (internal/server), the opening of the SQLite file, the
-- configuration, metrics and version packages, the rest of the client library (pkg/sessionclient), the
-- commands (cmd), the deployment files and the Cloudflare worker; of internal/auth the files of
-- identities; of the hub the JSON encodings, the list of online members and the interleavings inside
-- one method.
pub mod Base
pub mod Protocol
pub mod Storage
pub mod Auth
pub mod Session
pub mod Member
pub mod Relay
pub mod Server
pub mod Client
pub mod Scenarios
