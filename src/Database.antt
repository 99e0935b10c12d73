-- ===== src/Database.antt =====
-- The database behind app/adapters/db: what its statements do, as an interface with laws, and an
-- implementation by lists.
pub mod Numbering
pub mod Tables
pub mod Rows
