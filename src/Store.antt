-- ===== src/Store.antt =====
-- spoolctl/store.py: the queue database and every query on it, a module for each group of them.
pub mod Db
pub mod Submit
pub mod Claim
pub mod Record
pub mod Reap
pub mod Manual
pub mod Prune
pub mod Queries
pub mod Invariant
pub mod History
pub mod Lifecycle
pub mod Ledger
pub mod Lease
pub mod Schema
