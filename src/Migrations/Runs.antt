-- ===== src/Migrations/Runs.antt =====
-- alembic/versions/0ef50bb08163_runs_run_steps_run_messages.py
use agent_force.Prelude.{true, false, none, some, List, [], ◌∷◌}
use agent_force.Migrations.{
  column, TableDef, Index, Ddl, create_table, drop_table, create_index, drop_index, uuid, integer,
  text, jsonb, timestamptz, varchar,
}

abbrev pub runs : TableDef
runs = record {
  name = "runs";
  columns =
      column "id" uuid false none
      ∷ column "parent_run_id" uuid true none
      ∷ column "tenant_id" (varchar 64) false (some "default")
      ∷ column "agent" (varchar 64) false none
      ∷ column "status" (varchar 16) false none
      ∷ column "input" jsonb false none
      ∷ column "output" jsonb true none
      ∷ column "error_code" (varchar 32) true none
      ∷ column "error_message" text true none
      ∷ column "max_steps" integer false none
      ∷ column "token_budget" integer false none
      ∷ column "max_output_tokens" integer false none
      ∷ column "effort" (varchar 8) false none
      ∷ column "prompt_name" (varchar 64) false none
      ∷ column "prompt_version" integer false none
      ∷ column "model" (varchar 64) false none
      ∷ column "steps_taken" integer false (some "0")
      ∷ column "input_tokens" integer false (some "0")
      ∷ column "output_tokens" integer false (some "0")
      ∷ column "cache_read_tokens" integer false (some "0")
      ∷ column "lease_owner" (varchar 128) true none
      ∷ column "lease_expires_at" timestamptz true none
      ∷ column "idempotency_key" (varchar 128) true none
      ∷ column "created_at" timestamptz false (some "now()")
      ∷ column "started_at" timestamptz true none
      ∷ column "completed_at" timestamptz true none
      ∷ [];
  checks =
      record {
        name = "ck_runs_max_steps_positive";
        column = "max_steps";
        condition = "max_steps > 0";
      }
      ∷ record {
        name = "ck_runs_token_budget_positive";
        column = "token_budget";
        condition = "token_budget > 0";
      }
      ∷ [];
  foreign_keys = record { column = "parent_run_id"; target = "runs" } ∷ [];
  primary_key = "id";
  uniques =
      record { name = "uq_runs_tenant_idempotency"; columns = "tenant_id" ∷ "idempotency_key" ∷ [] }
      ∷ [];
  indexes = [];
}

abbrev pub ix_runs_created_at_id : Index
ix_runs_created_at_id = record {
  name = "ix_runs_created_at_id";
  columns = "created_at" ∷ "id" ∷ [];
  condition = none;
}

abbrev pub ix_runs_reclaimable : Index
ix_runs_reclaimable = record {
  name = "ix_runs_reclaimable";
  columns = "lease_expires_at" ∷ [];
  condition = some "status = 'RUNNING'";
}

abbrev pub ix_runs_status : Index
ix_runs_status = record { name = "ix_runs_status"; columns = "status" ∷ []; condition = none }

abbrev pub run_messages : TableDef
run_messages = record {
  name = "run_messages";
  columns =
      column "id" uuid false none
      ∷ column "run_id" uuid false none
      ∷ column "idx" integer false none
      ∷ column "role" (varchar 16) false none
      ∷ column "content" jsonb false none
      ∷ column "step_idx" integer true none
      ∷ column "created_at" timestamptz false (some "now()")
      ∷ [];
  checks =
      record { name = "ck_run_messages_idx_non_negative"; column = "idx"; condition = "idx >= 0" }
      ∷ [];
  foreign_keys = record { column = "run_id"; target = "runs" } ∷ [];
  primary_key = "id";
  uniques = record { name = "uq_run_messages_run_idx"; columns = "run_id" ∷ "idx" ∷ [] } ∷ [];
  indexes = [];
}

abbrev pub run_steps : TableDef
run_steps = record {
  name = "run_steps";
  columns =
      column "id" uuid false none
      ∷ column "run_id" uuid false none
      ∷ column "idx" integer false none
      ∷ column "stop_reason" (varchar 24) false none
      ∷ column "input_tokens" integer false (some "0")
      ∷ column "output_tokens" integer false (some "0")
      ∷ column "cache_read_tokens" integer false (some "0")
      ∷ column "attempt" integer false (some "1")
      ∷ column "tool_calls" jsonb false (some "'[]'::jsonb")
      ∷ column "committed_at" timestamptz false (some "now()")
      ∷ [];
  checks =
      record { name = "ck_run_steps_idx_non_negative"; column = "idx"; condition = "idx >= 0" }
      ∷ [];
  foreign_keys = record { column = "run_id"; target = "runs" } ∷ [];
  primary_key = "id";
  uniques = record { name = "uq_run_steps_run_idx"; columns = "run_id" ∷ "idx" ∷ [] } ∷ [];
  indexes = [];
}

unfoldable pub upgrade : List Ddl
upgrade =
    create_table runs
    ∷ create_index "runs" ix_runs_created_at_id
    ∷ create_index "runs" ix_runs_reclaimable
    ∷ create_index "runs" ix_runs_status
    ∷ create_table run_messages
    ∷ create_table run_steps
    ∷ []

unfoldable pub downgrade : List Ddl
downgrade =
    drop_table "run_steps"
    ∷ drop_table "run_messages"
    ∷ drop_index "ix_runs_status" "runs"
    ∷ drop_index "ix_runs_reclaimable" "runs"
    ∷ drop_index "ix_runs_created_at_id" "runs"
    ∷ drop_table "runs"
    ∷ []
