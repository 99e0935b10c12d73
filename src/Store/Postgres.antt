-- ===== src/Store/Postgres.antt =====
-- `PostgresRunStore` of app/adapters/db/run_store.py, over the tables of app/adapters/db/models.py.
pub mod Commits
pub mod Creation
pub mod Duplicates
pub mod Kept
pub mod Leases
pub mod Models
pub mod Outcomes
pub mod Port
pub mod Durable
pub mod Reads
pub mod Records
pub mod Abandoned
pub mod Recovery
pub mod Repeats
pub mod Runs
pub mod Updates
