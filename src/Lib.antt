-- ===== src/Lib.antt =====
-- SuperDB is an SQL database in Go: an engine that keeps tables in memory, a storage layer that
-- makes statements durable, a hosted server with its own framed protocol, and a cluster layer
-- that replicates statements and a directory of key ranges. This library models the parts below
-- and proves what makes them correct. A statement that arrives in a frame (Wire) is bound to its
-- parameters (Engine.Bind), run on a table (Engine.Delete, Engine.Insert, Engine.Update) where its WHERE holds
-- (Engine.Condition), or on the clone of a transaction (Remote.Session), and
-- appended to the log (Storage.Log), which is replayed when the program starts; in a cluster the
-- directory (Cluster.Ranges) says which range serves the table and the registry
-- (Cluster.Membership) where its members are.
--
-- Files, and the code that each models:
--   Prelude, Prelude/*: texts as byte lists, Boolean tests, Go's maps as association lists (a list's
--     order stands for the order that `range` picks), big-endian words, decimal numbers.
--   Strings: what the program uses of the Go packages strings and unicode.
--   Engine/Value: internal/engine/types.go, schema.go (valueKey, hasColumn, hasPrimaryColumn) and
--     select.go (valueLess, numeric). float64 is a parameter, the record Floats.
--   Engine/Index: internal/engine/schema.go, addIndexValue and removeIndexValue.
--   Engine/Table: internal/engine/fastpath.go, the whole file, and the Table of types.go.
--   Engine/Outcome: internal/engine/cancel.go. A context is a function from the tick at which it is
--     polled to whether it is done.
--   Engine/Delete, Engine/Insert, Engine/Update: what delete.go, insert.go and update.go of
--     internal/engine do to a table with its lock held. The WHERE of a statement is a function on rows,
--     so that the theorems hold for each. UPDATE looks for a WHERE only behind its SET; that search is left out.
--   Engine/Schema: CREATE INDEX, ALTER TABLE, DROP INDEX and TRUNCATE of internal/engine/schema.go and
--     drop.go, with the table's lock held. Names are in lower case already.
--   Engine/Select: selectRows of internal/engine/select.go from the lock on. Term has the equalities that are
--     resolved once, Scan the loops, Rows their order, Statement the choice between rows, groups and
--     aggregates; Found says what a SELECT is to find, Page what
--     LIMIT, OFFSET and MaxRows leave of it. The texts of errors are left out.
--   Engine/Aggregate: aggregateResult and countIndexEquality of internal/engine/select.go. Result has the
--     value and what COUNT(*) takes from the maps.
--   Engine/Group: internal/engine/group.go, the whole file. Items has the select list, Result what follows
--     the scan. The sums of float64 are a parameter, the record Sums, and sort.Slice is an argument.
--   Engine/Insert/Parse: the parsers of VALUES in internal/engine/insert.go and insertfast.go, coerceValue and
--     the rows of INSERT ... SELECT.
--   Engine/Order: internal/engine/orderby.go, the whole file. container/heap is the record HeapOps with the
--     laws Heaps, and sort.Slice is an argument.
--   Engine/Bind: internal/engine/bind.go, the whole file.
--   Engine/Fold: internal/engine/fold.go, but for firstField.
--   Engine/Like, Engine/Literal, Engine/Condition, Engine/Condition/Parse, Engine/Condition/Mutation:
--     internal/engine/parser.go, the whole file: LIKE, literals, the evaluation of conditions, their
--     parsing, and the WHERE of DELETE and UPDATE. strings.ToLower is an argument.
--   Engine/Commit: the revisions, clones and commits of internal/engine/snapshot.go and database.go. The
--     tables are any type, and `exec` on them is the interface Engine.
--   Remote/Session: internal/remote/session.go without a cluster. Remote/Session/System puts the sessions
--     together: a run is a list of statements, each sent by one of them, and each statement is one step with
--     its append to the log. The code holds no lock over both; Remote/Session/Race takes them apart.
--   Storage/Format: internal/storage/format.go. zlib is a parameter, the record Zlib, with the hypothesis
--     IsInverse that reading a compressed stream gives back what was compressed; CRC-32C is computed.
--   Storage/Log: internal/storage/wal.go, Append and ReplayWAL. How far a write got is an argument.
--   Wire: internal/wire/wire.go, frames and their headers. A stream is the list of bytes that is left.
--   Cluster/Ranges: internal/cluster/ranges.go, the whole file, and the RangeOp of fsm.go.
--   Cluster/State: internal/cluster/state.go, applyCommitted and what it calls, over any engine.
--   Cluster/Membership: internal/cluster/membership.go, the whole file. The clock's readings are
--     arguments.
--   Server/Limits: internal/server/limits.go, the whole file; which case of a select is taken is an argument.
--   Tests/*: each theorem at concrete data.
-- A file that is named after a property (Indexed, Ordered, RoundTrip, Fencing and so on) holds the
-- proofs of that property for the component above it.
--
-- Machine integers are natural numbers with `% 2 ^ w` at each wrap. Fuel: `next_synthetic_key` has one
-- round more than the table has rows, and `next_synthetic_key_lem` shows that this is enough;
-- `replay_frames` has the length of the file, and each frame takes at least a header of it. `like_loop`
-- has a round for each restart and position, and `like_match-ne-none` shows that this is enough.
--
-- Not modelled: locks (each operation is one step under its lock), the division of the
-- statements into their clauses, DROP TABLE and CREATE TABLE, the encodings of snapshots, the
-- hosted server around its sessions, the JSON of internal/server, the network, Raft and the consensus of
-- internal/cluster, the updater, and the commands.
pub mod Prelude
pub mod Strings
pub mod Engine
pub mod Storage
pub mod Wire
pub mod Cluster
pub mod Tests
pub mod Server
pub mod Remote
