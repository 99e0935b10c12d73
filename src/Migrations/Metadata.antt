-- ===== src/Migrations/Metadata.antt =====
-- The tables that the classes of app/adapters/db/models.py declare.
use mathlib.Core.List.{Perm}
use agent_force.Prelude.{◌≡◌, true, false, none, some, List, [], ◌∷◌}
use agent_force.Migrations.{
  Catalog, column, TableDef, uuid, integer, text, jsonb, boolean, timestamptz, varchar,
}

abbrev pub run_table : TableDef
run_table = record {
  name = "runs";
  columns =
      column "id" uuid false none
      ∷ column "parent_run_id" uuid true none
      ∷ column "tenant_id" (varchar 64) false (some "default")
      ∷ column "agent" (varchar 64) false none
      ∷ column "status" (varchar 16) false none
      ∷ column "input" jsonb false none
      ∷ column "output" jsonb true none
      ∷ column "error_code" (varchar 32) true none
      ∷ column "error_message" text true none
      ∷ column "max_steps" integer false none
      ∷ column "token_budget" integer false none
      ∷ column "max_output_tokens" integer false none
      ∷ column "effort" (varchar 8) false none
      ∷ column "prompt_name" (varchar 64) false none
      ∷ column "prompt_version" integer false none
      ∷ column "model" (varchar 64) false none
      ∷ column "steps_taken" integer false (some "0")
      ∷ column "input_tokens" integer false (some "0")
      ∷ column "output_tokens" integer false (some "0")
      ∷ column "cache_read_tokens" integer false (some "0")
      ∷ column "retries_used" integer false (some "0")
      ∷ column "lease_owner" (varchar 128) true none
      ∷ column "lease_expires_at" timestamptz true none
      ∷ column "idempotency_key" (varchar 128) true none
      ∷ column "created_at" timestamptz false (some "now()")
      ∷ column "started_at" timestamptz true none
      ∷ column "completed_at" timestamptz true none
      ∷ [];
  checks =
      record {
        name = "ck_runs_max_steps_positive";
        column = "max_steps";
        condition = "max_steps > 0";
      }
      ∷ record {
        name = "ck_runs_token_budget_positive";
        column = "token_budget";
        condition = "token_budget > 0";
      }
      ∷ [];
  foreign_keys = record { column = "parent_run_id"; target = "runs" } ∷ [];
  primary_key = "id";
  uniques =
      record { name = "uq_runs_tenant_idempotency"; columns = "tenant_id" ∷ "idempotency_key" ∷ [] }
      ∷ [];
  indexes =
      record {
        name = "ix_runs_created_at_id";
        columns = "created_at" ∷ "id" ∷ [];
        condition = none;
      }
      ∷ record { name = "ix_runs_status"; columns = "status" ∷ []; condition = none }
      ∷ record {
        name = "ix_runs_reclaimable";
        columns = "lease_expires_at" ∷ [];
        condition = some "status = 'RUNNING'";
      }
      ∷ [];
}

abbrev pub run_step_table : TableDef
run_step_table = record {
  name = "run_steps";
  columns =
      column "id" uuid false none
      ∷ column "run_id" uuid false none
      ∷ column "idx" integer false none
      ∷ column "stop_reason" (varchar 24) false none
      ∷ column "input_tokens" integer false (some "0")
      ∷ column "output_tokens" integer false (some "0")
      ∷ column "cache_read_tokens" integer false (some "0")
      ∷ column "attempt" integer false (some "1")
      ∷ column "tool_calls" jsonb false (some "'[]'::jsonb")
      ∷ column "committed_at" timestamptz false (some "now()")
      ∷ [];
  checks =
      record { name = "ck_run_steps_idx_non_negative"; column = "idx"; condition = "idx >= 0" }
      ∷ [];
  foreign_keys = record { column = "run_id"; target = "runs" } ∷ [];
  primary_key = "id";
  uniques = record { name = "uq_run_steps_run_idx"; columns = "run_id" ∷ "idx" ∷ [] } ∷ [];
  indexes = [];
}

abbrev pub run_message_table : TableDef
run_message_table = record {
  name = "run_messages";
  columns =
      column "id" uuid false none
      ∷ column "run_id" uuid false none
      ∷ column "idx" integer false none
      ∷ column "role" (varchar 16) false none
      ∷ column "content" jsonb false none
      ∷ column "step_idx" integer true none
      ∷ column "created_at" timestamptz false (some "now()")
      ∷ [];
  checks =
      record { name = "ck_run_messages_idx_non_negative"; column = "idx"; condition = "idx >= 0" }
      ∷ [];
  foreign_keys = record { column = "run_id"; target = "runs" } ∷ [];
  primary_key = "id";
  uniques = record { name = "uq_run_messages_run_idx"; columns = "run_id" ∷ "idx" ∷ [] } ∷ [];
  indexes = [];
}

abbrev pub tool_invocation_table : TableDef
tool_invocation_table = record {
  name = "tool_invocations";
  columns =
      column "id" uuid false none
      ∷ column "run_id" uuid false none
      ∷ column "step_idx" integer false none
      ∷ column "idempotency_key" (varchar 64) false none
      ∷ column "tool_name" (varchar 64) false none
      ∷ column "effect_class" (varchar 24) false none
      ∷ column "status" (varchar 16) false none
      ∷ column "result" text true none
      ∷ column "is_error" boolean false (some "false")
      ∷ column "created_at" timestamptz false (some "now()")
      ∷ column "completed_at" timestamptz true none
      ∷ [];
  checks = [];
  foreign_keys = record { column = "run_id"; target = "runs" } ∷ [];
  primary_key = "id";
  uniques = record { name = "uq_tool_invocations_key"; columns = "idempotency_key" ∷ [] } ∷ [];
  indexes =
      record {
        name = "ix_tool_invocations_run";
        columns = "run_id" ∷ "step_idx" ∷ [];
        condition = none;
      }
      ∷ [];
}

abbrev pub metadata : List TableDef
metadata = tool_invocation_table ∷ run_step_table ∷ run_message_table ∷ run_table ∷ []

-- Two tables that differ in the order of their columns and of their indexes at most.
abbrev pub Agrees : TableDef → TableDef → Type 0
Agrees t u =
    (t.name ≡ u.name)
    × Perm t.columns u.columns
    × (t.checks ≡ u.checks)
    × (t.foreign_keys ≡ u.foreign_keys)
    × (t.primary_key ≡ u.primary_key)
    × (t.uniques ≡ u.uniques)
    × Perm t.indexes u.indexes

abbrev pub AgreeAll : Catalog → List TableDef → Type 0
AgreeAll [] [] = Unit
AgreeAll (t ∷ ts) (u ∷ us) = Agrees t u × AgreeAll ts us
AgreeAll ts us = ⊥
