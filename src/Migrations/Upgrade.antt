-- ===== src/Migrations/Upgrade.antt =====
-- What each migration makes of a catalog that has none of its names.
use agent_force.Prelude.{◌≡◌, refl, false, String, List, [], ◌∷◌, ◌++◌, All}
use agent_force.Migrations.{Catalog, TableDef, Index, is_taken, effect, Leads, done, step}
use agent_force.Migrations.Runs.{
  runs, run_messages, run_steps, ix_runs_created_at_id, ix_runs_reclaimable, ix_runs_status,
}
use agent_force.Migrations.Runs as Runs
use agent_force.Migrations.Invocations.{tool_invocations, ix_tool_invocations_run}
use agent_force.Migrations.Invocations as Invocations
use agent_force.Migrations.Retries.{retries_used}
use agent_force.Migrations.Retries as Retries

abbrev pub AreFree : List String → Catalog → Type 0
AreFree names c = All (λ n. is_taken c n ≡ false) names

abbrev pub run_names : List String
run_names =
    "runs" ∷ "runs_pkey" ∷ "uq_runs_tenant_idempotency" ∷ "ix_runs_created_at_id"
    ∷ "ix_runs_reclaimable" ∷ "ix_runs_status" ∷ "run_messages" ∷ "run_messages_pkey"
    ∷ "uq_run_messages_run_idx" ∷ "run_steps" ∷ "run_steps_pkey" ∷ "uq_run_steps_run_idx" ∷ []

abbrev pub invocation_names : List String
invocation_names =
    "tool_invocations" ∷ "tool_invocations_pkey" ∷ "uq_tool_invocations_key"
    ∷ "ix_tool_invocations_run" ∷ []

abbrev pub with_indexes : TableDef → List Index → TableDef
with_indexes t is = record t { indexes = is }

abbrev pub indexed_runs : TableDef
indexed_runs = with_indexes runs (ix_runs_created_at_id ∷ ix_runs_reclaimable ∷ ix_runs_status ∷ [])

abbrev pub counted_runs : TableDef
counted_runs = record indexed_runs { columns = runs.columns ++ retries_used ∷ [] }

abbrev pub indexed_invocations : TableDef
indexed_invocations = with_indexes tool_invocations (ix_tool_invocations_run ∷ [])

-- The catalog after the first migration, the second and the third.
abbrev pub first : Catalog → Catalog
first c = run_steps ∷ run_messages ∷ indexed_runs ∷ c

abbrev pub second : Catalog → Catalog
second c = indexed_invocations ∷ first c

abbrev pub third : Catalog → Catalog
third c = indexed_invocations ∷ run_steps ∷ run_messages ∷ counted_runs ∷ c

module _ (c : Catalog) (free : AreFree run_names c) where
  pub upgrade_runs : Leads Runs.upgrade c (first c)
  unfolding effect Runs.upgrade
  upgrade_runs =
      let (x, (y, (z, (a, (b, (d, (e, (f, (g, (h, (i, (j, _)))))))))))) = free in
      step (runs ∷ c) (rw (x, y, z, effect) refl) (
        step (with_indexes runs (ix_runs_created_at_id ∷ []) ∷ c) (rw (a, effect) refl) (
          step (with_indexes runs (ix_runs_created_at_id ∷ ix_runs_reclaimable ∷ []) ∷ c)
            (rw (b, effect) refl)
            (step (indexed_runs ∷ c) (rw (d, effect) refl) (
              step (run_messages ∷ indexed_runs ∷ c) (rw (e, f, g, effect) refl)
                (step (first c) (rw (h, i, j, effect) refl) done)))))

pub upgrade_invocations :
    (c : Catalog) → AreFree invocation_names c → Leads Invocations.upgrade (first c) (second c)
unfolding effect Invocations.upgrade
upgrade_invocations c (a, (b, (d, (e, _)))) =
    step (tool_invocations ∷ first c) (rw (a, b, d, effect) refl)
      (step (second c) (rw (e, effect) refl) done)

pub upgrade_retries : (c : Catalog) → Leads Retries.upgrade (second c) (third c)
unfolding effect Retries.upgrade
upgrade_retries c = step (third c) refl done
