-- ===== src/Server.antt =====
-- src/server.rs and src/replica.rs: the database. Its state is in State, its statements in Effects,
-- the secondary indexes in Index, the requests in Writes, Reads and Transaction, the start in Startup,
-- the background tasks in Maintenance, and replication in Sync and Replica. Sound has the invariant.
pub mod Record
pub mod State
pub mod Index
pub mod Effects
pub mod Sound
pub mod Writes
pub mod Reads
pub mod Transaction
pub mod Coherence
pub mod Startup
pub mod Maintenance
pub mod Broadcast
pub mod Runs
pub mod Database
pub mod Sync
pub mod Replica
