-- ===== src/Migrations/Downgrade.antt =====
-- What each migration leaves when it is taken back.
use agent_force.Prelude.{◌≡◌, refl, false, String, List, [], ◌∷◌, All}
use agent_force.Migrations.{Catalog, is_referenced, effect, Leads, done, step}
use agent_force.Migrations.Runs.{run_messages, runs, ix_runs_created_at_id, ix_runs_reclaimable}
use agent_force.Migrations.Runs as Runs
use agent_force.Migrations.Invocations.{tool_invocations}
use agent_force.Migrations.Invocations as Invocations
use agent_force.Migrations.Retries.{test_side_effects, test_side_effect_attempts}
use agent_force.Migrations.Retries as Retries
use agent_force.Migrations.Upgrade.{AreFree, with_indexes, indexed_runs, first, second, third}

abbrev pub our_tables : List String
our_tables = "runs" ∷ "run_messages" ∷ "run_steps" ∷ "tool_invocations" ∷ []

-- No other table has a key into ours.
abbrev pub AreUnreferenced : List String → Catalog → Type 0
AreUnreferenced names c = All (λ n. is_referenced c n ≡ false) names

abbrev pub scratch_names : List String
scratch_names =
    "test_side_effects" ∷ "test_side_effects_pkey" ∷ "test_side_effects_run_id_label_key"
    ∷ "test_side_effect_attempts" ∷ "test_side_effect_attempts_pkey" ∷ []

abbrev pub scratch : Catalog → Catalog
scratch c = test_side_effect_attempts ∷ test_side_effects ∷ c

module _ (c : Catalog) where
  pub downgrade_runs : AreUnreferenced our_tables c → Leads Runs.downgrade (first c) c
  unfolding effect Runs.downgrade
  downgrade_runs (x, (y, (z, _))) = step (run_messages ∷ indexed_runs ∷ c) (rw (z, effect) refl) (
      step (indexed_runs ∷ c) (rw (y, effect) refl) (
        step (with_indexes runs (ix_runs_created_at_id ∷ ix_runs_reclaimable ∷ []) ∷ c) refl (
          step (with_indexes runs (ix_runs_created_at_id ∷ []) ∷ c) refl
            (step (runs ∷ c) refl (step c (rw (x, effect) refl) done)))))

  pub downgrade_invocations :
      AreUnreferenced our_tables c → Leads Invocations.downgrade (second c) (first c)
  unfolding effect Invocations.downgrade
  downgrade_invocations (x, (y, (z, (w, _)))) =
      step (tool_invocations ∷ first c) refl (step (first c) (rw (w, effect) refl) done)

  pub downgrade_retries :
      AreFree scratch_names c → Leads Retries.downgrade (third c) (scratch (second c))
  unfolding effect Retries.downgrade
  downgrade_retries (a, (b, (d, (e, (f, _))))) = step (second c) refl (
      step (test_side_effects ∷ second c) (rw (a, b, d, effect) refl)
        (step (scratch (second c)) (rw (e, f, effect) refl) done))

  pub upgrade_again : Leads Retries.upgrade (scratch (second c)) (scratch (third c))
  unfolding effect Retries.upgrade
  upgrade_again = step (scratch (third c)) refl done
