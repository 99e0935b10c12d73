-- ===== src/Tests/Tables.antt =====
-- The tables of app/adapters/db/models.py as lists of rows, and a run in them.
use agent_force.Prelude.{
  ℕ, ◌≡◌, refl, Bool, true, false, String, Option, none, some, List, [], ◌∷◌, any, nat_Eq,
  string_Eq, arith,
}
use agent_force.Prelude.Dict.{Dict, get}
use agent_force.Database.Tables.{Table, IsTable}
use agent_force.Database.Rows.{
  dict_table, dict_table-IsTable, list_children, list_children-IsChildren,
}
use agent_force.Ledger.Postgres.{ToolInvocation}
use agent_force.Store.Postgres.Models.{
  RunRow, StepRow, MessageRow, Schema, Stored, IsSchema, SameKey,
}
use agent_force.Store.Postgres.Runs.{has_key, create}
use agent_force.Store.Postgres.Creation.{HasKey-has_key}
use agent_force.Tests.Fixtures.{question}

abbrev pub invocations : Table String ToolInvocation (Dict String ToolInvocation)
invocations = dict_table (λ r d. false)

pub invocations-IsTable : IsTable invocations
invocations-IsTable = dict_table-IsTable (λ r d. false)

-- The constraint on the key of a tenant.
abbrev pub same_key : Option String → String → RunRow → Bool
same_key none tenant_id run = false
same_key (some key) tenant_id run = has_key tenant_id key run

abbrev pub Runs : Type 0
Runs = Dict ℕ RunRow

abbrev pub key_taken : RunRow → Runs → Bool
key_taken r d = any (λ p. same_key r.idempotency_key r.tenant_id p.1) d

abbrev pub tables : Schema Runs (List (ℕ × StepRow)) (List (ℕ × MessageRow))
tables = record {
  runs = dict_table key_taken;
  steps = list_children (λ r. r.idx);
  messages = list_children (λ r. r.idx);
}

abbrev pub Db : Type 0
Db = Stored Runs (List (ℕ × StepRow)) (List (ℕ × MessageRow))

any-get :
    (test : RunRow → Bool) (k : ℕ) (s : RunRow) (d : Runs)
    → get d k ≡ some s
    → test s ≡ true
    → any (λ p. test p.1) d ≡ true
unfolding get
any-get test k s [] h t = ground arith
any-get test k s ((j, r) ∷ d) h t = ground (arith, any-get test k s d)

key_taken-SameKey :
    (k : ℕ) (r s : RunRow) (d : Runs) → get d k ≡ some s → SameKey r s → key_taken r d ≡ true
key_taken-SameKey k r s d h (t, (key, a, b)) =
    any-get (same_key r.idempotency_key r.tenant_id) k s d h
      (rw (a, t) (HasKey-has_key s.tenant_id key s (refl, b)))

pub tables-IsSchema : IsSchema tables
tables-IsSchema = record {
  runs = dict_table-IsTable key_taken;
  steps = list_children-IsChildren (λ r. r.idx);
  messages = list_children-IsChildren (λ r. r.idx);
  refuses_key = key_taken-SameKey;
}

abbrev pub empty_db : Db
empty_db = record { runs = []; steps = []; messages = [] }

abbrev pub created : Db
created = (create tables question 7 5 empty_db).1
