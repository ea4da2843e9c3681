-- ===== src/Lib.antt =====
-- Kind DB: a key-value server with records that may expire, secondary indexes from a schema, a cache
-- in front of its tree, transactions, a write-ahead log with snapshots, and replication.
--
-- The parts and the files that model them:
--
-- - Cache: the trait `Cache` of src/cache.rs as an interface, and its three strategies. Cache.Fifo,
--   Cache.Lru and Cache.Lfu follow `FifoCache`, `LruCache` and `LfuCache`; `put`, `get` and `invalidate`
--   act on the state behind the mutex. Each fills the interface: Cache.Fifo.Contract, Cache.Lru.Strategy,
--   Cache.Lfu.Strategy. Cache.Lru.Recency is the list that the LRU cache stands for; Cache.Lru.Order,
--   Cache.Lru.Links and Cache.Lru.Chain are the linked list inside it.
-- - Schema: src/schema. Schema.Ast is ast.rs, Schema.Lexer and Schema.Parser are parser.rs, and
--   Schema.Registry is registry.rs, `load_schema`, `validate` and `indexed_fields_for_prefix`.
-- - Wal: src/wal.rs. A file is its text; `append`, `truncate`, `read_all_commands`, `read_from_tx_id`.
-- - Server: src/server.rs. Server.State has the fields of `KindServerImpl`; Server.Effects has the
--   statements that change them, one function each. Server.Index is `index_record` and
--   `remove_record_from_index`. Server.Writes is `put`, `delete` and `cas`; Server.Reads is `get`,
--   `range_scan`, `prefix_scan`, `query` and `watch`; Server.Transaction is `TxHandle`. Server.Startup
--   is `KindServerImpl::new`, Server.Maintenance the snapshot and the eviction task, Server.Sync the
--   leader's side of replication and Server.Replica, from src/replica.rs, the replica's side, with its loop
--   in Server.Replica.Session.
-- - Kindctl: src/bin/kindctl.rs, the command-line client. Process: src/main.rs, arguments and environment.
-- - Json, SkipMap: `serde_json` and `crossbeam_skiplist`, which the program calls: records of the
--   operations that it uses with their documented laws. The serialisation of the log and of the
--   snapshot and the checksum are parameters in the same way (Wal.WalCodec,
--   Server.State.SnapshotCodec), and so are the classes of characters (Schema.Lexer.CharClass).
-- - Server.Sound and Server.Runs are the invariants and runs of requests. Server.Broadcast has the requests
--   that write and the commands that they log and send. Server.Database is the map of versioned records
--   that the server stands for: its operations are no code, but what the code promises. Server.Index.Exact,
--   Server.Coherence and the children of the modules above hold the lemmas of the parts.
-- - Prelude: tests, lists, texts, association lists and results. Tests: concrete libraries, a small
--   server on them, and runs.
--
-- A request is a function from the server's state to the state that it leaves and its reply. `none` is a
-- panic or a loop without end in the cache. The server calls its cache through the interface, and the
-- interface's laws are all that the theorems on the server use. The three caches fill it; the server
-- is started with the LRU cache, with which the tests run it.
--
-- The server's invariant, Server.Sound.IsSound: the cache is valid, and an index key leads to a key
-- exactly when the record stored there has it. Server.Sound.IsCoherent: what the cache holds is the value
-- of a record in the tree that never expires.
--
-- Fuel: the eviction loop of the FIFO cache has one round more than there are entries. The lexer's
-- recursion has one more than the characters that are left, since each call drops one. The parser's
-- loops have one more than an upper bound of the tokens that are left. Validation has the size of the
-- value, since each call goes to a smaller one. Running out of fuel is a value of its own; only
-- `next_token` reads it as the end of the text.
--
-- The loop of the replica has no end; Server.Replica.Session.run_replica_loop is its state after a number
-- of rounds, where the network is a function from rounds to what they meet.
--
-- Machine integers: versions, frequencies and expiry times are 64 bits wide and wrap as written, `% 2 ^ 64`.
-- Times are the clock's reading, given to each request once.
--
-- What is not modelled: threads, since each request and each tick of a task is one step, and so no lock is
-- ever poisoned; errors of the file system, so that a write that is accepted is complete; a
-- broadcast channel that drops messages of a slow receiver; the transport, of which only what the rounds of a
-- replica meet and the refused connection of a client are seen; and the server's printing. A hash map is a list in
-- some order, and the theorems range over every such list.
pub mod Prelude
pub mod Cache
pub mod Json
pub mod Schema
pub mod SkipMap
pub mod Wal
pub mod Server
pub mod Kindctl
pub mod Process
pub mod Tests
