-- ===== src/Migrations/Invocations.antt =====
-- alembic/versions/ea639b02cd72_tool_invocations_ledger.py
use agent_force.Prelude.{true, false, none, some, List, [], ◌∷◌}
use agent_force.Migrations.{
  column, TableDef, Index, Ddl, create_table, drop_table, create_index, drop_index, uuid, integer,
  text, boolean, timestamptz, varchar,
}

abbrev pub tool_invocations : TableDef
tool_invocations = record {
  name = "tool_invocations";
  columns =
      column "id" uuid false none
      ∷ column "run_id" uuid false none
      ∷ column "step_idx" integer false none
      ∷ column "idempotency_key" (varchar 64) false none
      ∷ column "tool_name" (varchar 64) false none
      ∷ column "effect_class" (varchar 24) false none
      ∷ column "status" (varchar 16) false none
      ∷ column "result" text true none
      ∷ column "is_error" boolean false (some "false")
      ∷ column "created_at" timestamptz false (some "now()")
      ∷ column "completed_at" timestamptz true none
      ∷ [];
  checks = [];
  foreign_keys = record { column = "run_id"; target = "runs" } ∷ [];
  primary_key = "id";
  uniques = record { name = "uq_tool_invocations_key"; columns = "idempotency_key" ∷ [] } ∷ [];
  indexes = [];
}

abbrev pub ix_tool_invocations_run : Index
ix_tool_invocations_run = record {
  name = "ix_tool_invocations_run";
  columns = "run_id" ∷ "step_idx" ∷ [];
  condition = none;
}

unfoldable pub upgrade : List Ddl
upgrade =
    create_table tool_invocations ∷ create_index "tool_invocations" ix_tool_invocations_run ∷ []

unfoldable pub downgrade : List Ddl
downgrade =
    drop_index "ix_tool_invocations_run" "tool_invocations" ∷ drop_table "tool_invocations" ∷ []
