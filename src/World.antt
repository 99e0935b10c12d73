-- ===== src/World.antt =====
-- The world of the in-memory adapters: the run store, the tool ledger, the clock on which leases
-- expire, and an environment in which the model, the tools and the queue live.
use agent_force.Prelude.{ℕ}
use agent_force.Store.Records.{MemoryStore}
use agent_force.Ledger.Memory.{Ledger}

pub record World (E : Type 0) : Type 0 where
  pub store : MemoryStore
  pub ledger : Ledger
  pub now : ℕ
  pub env : E
