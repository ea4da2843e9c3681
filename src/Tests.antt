-- ===== src/Tests.antt =====
-- Concrete libraries for the parameters, and runs of the program on them.
pub mod Sorted
pub mod Codec
pub mod Tree
pub mod Samples
mod Requests
mod Client
mod Recency
mod Frequency
mod Replication
mod Schemas
mod Operation
mod Durable
mod Transactions
mod Log
mod Caches
