-- ===== src/Store/Postgres/Creation.antt =====
-- `create` of app/adapters/db/run_store.py: a client's key creates one run.
use agent_force.Prelude.{ℕ, ◌≡◌, true, String, some, arith, nat_Eq, str_eq_iff}
use agent_force.Effects.{ok}
use agent_force.State.{RunRecord}
use agent_force.Store.Postgres.Models.{RunRow, Schema, Stored, SameKey}
use agent_force.Store.Postgres.Runs.{load, has_key}

-- The row was created with the key.
abbrev pub HasKey : RunRow → String → String → Type 0
HasKey run tenant_id key = (run.tenant_id ≡ tenant_id) × (run.idempotency_key ≡ some key)

pub HasKey-has_key :
    (tenant_id key : String) (run : RunRow)
    → HasKey run tenant_id key
    → has_key tenant_id key run ≡ true
unfolding has_key
HasKey-has_key tenant_id key run (t, k) =
    rw (has_key, t, k) (ground (arith, str_eq_iff tenant_id tenant_id, str_eq_iff key key))

module _ {R S M : Type 0} (q : Schema R S M) where
  -- No two runs of a tenant have the same key: the constraint on the table.
  pub record IsUnique (d : R) : Type 0 where
    pub at_keys :
        (i j : ℕ) (r s : RunRow)
        → q.runs.select i d ≡ some r
        → q.runs.select j d ≡ some s
        → SameKey r s
        → i ≡ j

  -- A run that is there with the key, and that loads.
  abbrev pub Holds : String → String → RunRecord → Stored R S M → Type 0
  Holds tenant_id key r db =
      (id : ℕ) × (run : RunRow) × (q.runs.select id db.runs ≡ some run)
      × HasKey run tenant_id key
      × (load q id db ≡ ok r)
