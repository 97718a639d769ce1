-- ===== src/Lib.antt =====
-- AutoCache: a Redis-compatible cache server that runs as a cluster. A key belongs to one of 16384
-- slots, each slot to one node, the primary, which orders the writes of the slot in a log that its
-- replicas apply; a replica takes over when the primary fails.
--
-- internal/cluster/hash/crc16.go (Cluster/Hash, Hash/Table): the checksum and the slot of a key. Bytes
-- and words are ℕ, strings of bytes are lists; `<<` is cut to 16 bits by `% 65536`. Hash/Xmodem has the
-- bitwise definition of CRC-16/XMODEM, Hash/Tags the hash tags.
-- internal/cluster/slots.go (Cluster/Slots and its child modules): `SlotManager`, the owner, replicas,
-- epoch and log number of each slot, and the index of the slots of a node. The fixed array and the maps
-- are functions; a method is one step, since it holds the lock; a panic is `none`. Slots/Calls has any
-- sequence of its methods, Slots/Restore what is saved of a manager and how it is restored.
-- internal/cluster/state/manager.go (Cluster/State): the dirty flag and its signal, and the loop that
-- saves as a step relation (State/Loop), with its phases (Loop/Phases) and its runs in which nothing goes
-- wrong (Loop/Calm). The files are I/O.
-- internal/cluster/replication (Cluster/Replication and its child modules): `LogStore` and the catching
-- up of a replica (Replication, Log, CatchUp, Resume), `AckTracker` (Acks), `ReplicaApplier` and the
-- handler around it in internal/protocol/handler.go (Applier), `Manager.ApplyWrite` (Manager and its
-- child modules). What the engine does with an operation is a parameter; the connections, queues and
-- timeouts of peer.go, stream.go and replica_conn.go are I/O and are not modelled: `dispatched` lists
-- what was handed to them. A call of `ApplyWrite` is one step of the model, although the source holds no
-- lock over it: the theorems are about calls that do not overlap.
-- internal/cluster/failover/manager.go (Cluster/Failover): which replica is promoted and who may write.
-- internal/cluster/router/router.go and the routing methods of internal/cluster/cluster.go
-- (Cluster/Router): where a command on a key goes. Router/Routes says why, Router/Handover follows a
-- slot from one node to another. What gossip knows of the nodes is a list of the state.
-- internal/cluster/gossip (Cluster/Gossip and its child modules): what a node knows of the others
-- (Gossip/Nodes), the detection of failures (Gossip/Failures), the messages and what they change
-- (Gossip/Messages), the slots that other nodes claim and their epochs (Gossip, Gossip/Claims) and the
-- bitmaps of slots (Gossip/Bitmap). The map of the nodes is an association list in the order of its
-- loops, and holds the node itself; times are arguments. Sockets, the choice of the node to ping and the
-- gob codec are not modelled, and the shuffle is a parameter.
-- internal/cluster/cluster.go (Cluster/Takeover): the epochs of a node and the change of its role, over
-- the slot manager and the gossip that it shares. Takeover/Owner is about a failover.
-- internal/cluster/migrate/worker.go (Cluster/Migration/Worker), internal/cluster/migration/worker.go
-- (Migration/Background) and the draining of internal/cluster/cluster.go (Migration/Drain): how the keys
-- of a slot move to another node. The engine is a record of operations with a law (Cluster/Migration), the
-- target is any node that answers RESTORE, with a record of what it answered with OK. What becomes of each
-- connection is an argument, and so is what clients do during a drain and between its last look and its
-- end; during a move by the first worker no client writes. Migration/Moved, Migration/Completed and
-- Migration/Drained prove this over laws of the target, which Migration/Answered shows of any target.
-- Retries take their maximum as fuel, which is the bound of the source's loop.
-- internal/protocol/handler.go and crossslot.go (Protocol): what `ExecuteBytes` does with a command before
-- and after its handler (Protocol/Execute), with the ASKING flag of a connection (Protocol/Session) and
-- what a command has passed that runs (Protocol/Admission); the payload of a replicated command
-- (Protocol/Payload), the handlers of the replicated commands on the primary (Protocol/Writes) and what a
-- replica does with their operations (Protocol/Replay). The hashed table of the commands, of cmdmap.go and zerocopy.go, is in
-- Protocol/Table; its loops have the source's bound of 128 steps. The other handlers and the
-- engine are parameters; in Protocol/Execute the names of commands are in upper case.
-- internal/engine/memory/dict.go (Engine/Dict): the sharded dictionary of the keys that hold a
-- collection. A shard is an association list, the clock an argument. A call is one step here and in Engine/Cache,
-- although `Get` lets go of the lock before it deletes what has expired. Dict/Refine compares an operation
-- with its meaning on one map, Dict/Runs a sequence of them; Dict/Len is about the sizes.
-- internal/engine/memory/store.go (Engine/Objects): the store around the dictionary, with the index of
-- the keys of a slot; the cache of strings is seen only by whether it has a key. Objects/View says what
-- an operation may change, Objects/Writes that the writes keep to it.
-- internal/engine/memory/list.go (Engine/Lists), hash.go, set.go and zset.go beside it (Engine/Maps): the
-- operations on collections. Lists/Spec and Maps/Spec have what each does to a plain list or map
-- (Lists/Plain and Lists/Refine compare), Maps/Sorted what is returned in order, where `sort.Strings` and
-- `sort.Slice` are parameters.
-- internal/engine/memory/ringbuf.go (Engine/Ring): the ring buffer of entries as bytes. Ring/Bytes and
-- Ring/Codec are about the bytes, Ring/Room about the loops that evict, Ring/Stored about a write and the
-- read after it. The loops take the number of used bytes as fuel, which is enough because a round takes
-- 24 of them at least and a loop ends when none are used (Ring/Room).
-- internal/engine/memory/shard.go (Engine/Cache): the cache of strings, an index of hashes over a ring
-- buffer per shard, with the numbers that `IncrBy` keeps in the index. A call that does not return, as
-- `recordAccess` does not unless it is skipped, is `none`. Cache/Holds and Cache/Roundtrip are about what
-- is stored and found, Cache/Sums about counting; Cache/Decimal has `strconv` in base 10.
--
-- Numbers that the source keeps in uint64 are ℕ, and each addition is cut by `% 2 ^ 64`. The other
-- loops run over lists or a number of steps that the source fixes. The listing of the keys of the
-- cache, the tiered and disk engines, the automatic failover of the server, the answers of the command
-- handlers, the operator and the web consoles are not modelled.
pub mod Cluster
pub mod Engine
pub mod Prelude
pub mod Protocol
