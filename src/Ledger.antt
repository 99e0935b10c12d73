-- ===== src/Ledger.antt =====
-- The tool ledgers: app/adapters/db/memory.py (InMemoryToolLedger) and tool_ledger.py.
pub mod Memory
pub mod Port
pub mod Postgres
pub mod Races
pub mod Refinement
pub mod Rows
