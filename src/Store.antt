-- ===== src/Store.antt =====
-- The run store.
pub mod Records
pub mod Memory
pub mod Leases
pub mod Exclusion
pub mod Commits
pub mod Contract
pub mod Creation
pub mod Steps
pub mod Invariant
pub mod Keeps
pub mod Histories
pub mod Port
pub mod Durable
pub mod Postgres
