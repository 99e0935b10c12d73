-- ===== src/Tests.antt =====
-- The theorems at concrete values.
mod Fixtures
mod Values
mod Leases
mod Calls
mod Runs
mod Durable
mod Tables
mod Postgres
mod Queue
mod Llm
mod Calculator
mod Workers
mod Prompts
mod Migrations
