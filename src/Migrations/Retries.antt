-- ===== src/Migrations/Retries.antt =====
-- alembic/versions/97be8fa2e40a_run_retry_counter.py
use agent_force.Prelude.{false, none, some, List, [], ◌∷◌}
use agent_force.Migrations.{
  Column, column, TableDef, Ddl, create_table, add_column, drop_column, uuid, integer, bigint, text,
  timestamptz,
}

abbrev pub retries_used : Column
retries_used = column "retries_used" integer false (some "0")

abbrev pub test_side_effects : TableDef
test_side_effects = record {
  name = "test_side_effects";
  columns =
      column "id" bigint false none
      ∷ column "run_id" uuid false none
      ∷ column "label" text false none
      ∷ column "applied_at" timestamptz false (some "now()")
      ∷ [];
  checks = [];
  foreign_keys = [];
  primary_key = "id";
  uniques =
      record { name = "test_side_effects_run_id_label_key"; columns = "run_id" ∷ "label" ∷ [] }
      ∷ [];
  indexes = [];
}

abbrev pub test_side_effect_attempts : TableDef
test_side_effect_attempts = record {
  name = "test_side_effect_attempts";
  columns =
      column "id" bigint false none
      ∷ column "run_id" uuid false none
      ∷ column "label" text false none
      ∷ column "attempt_at" timestamptz false (some "now()")
      ∷ [];
  checks = [];
  foreign_keys = [];
  primary_key = "id";
  uniques = [];
  indexes = [];
}

unfoldable pub upgrade : List Ddl
upgrade = add_column "runs" retries_used ∷ []

unfoldable pub downgrade : List Ddl
downgrade =
    drop_column "runs" "retries_used"
    ∷ create_table test_side_effects
    ∷ create_table test_side_effect_attempts
    ∷ []
