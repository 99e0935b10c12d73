-- ===== src/Migrations/Head.antt =====
-- What all the migrations make of a database, and what app/adapters/db/models.py declares.
use mathlib.Core.List.{perm_middle}
use mathlib.Core.List.Perm
use agent_force.Prelude.{ℕ, zero, suc, refl, List, [], ◌∷◌, ◌++◌}
use agent_force.Migrations.{Column, Catalog, Ddl, TableDef}
use agent_force.Migrations.Runs.{run_steps, run_messages, runs, ix_runs_status, ix_runs_reclaimable}
use agent_force.Migrations.Runs as Runs
use agent_force.Migrations.Invocations as Invocations
use agent_force.Migrations.Retries as Retries
use agent_force.Migrations.Retries.{retries_used, test_side_effects}
use agent_force.Migrations.Database.{Postgres, IsPostgres, LeadsTo, migrate-LeadsTo, append-Leads}
use agent_force.Migrations.Metadata.{metadata, Agrees, AgreeAll, run_table}
use agent_force.Migrations.Upgrade.{
  AreFree, run_names, invocation_names, counted_runs, indexed_invocations, upgrade_runs,
  upgrade_invocations, upgrade_retries,
}

-- The migrations in the order of their revisions.
unfoldable pub upgrade_head : List Ddl
unfolding Runs.upgrade Invocations.upgrade Retries.upgrade
upgrade_head = Runs.upgrade ++ (Invocations.upgrade ++ Retries.upgrade)

take : ℕ → List Column → List Column
take zero xs = []
take (suc n) [] = []
take (suc n) (x ∷ xs) = x ∷ take n xs

drop : ℕ → List Column → List Column
drop zero xs = xs
drop (suc n) [] = []
drop (suc n) (x ∷ xs) = drop n xs

same-Agrees : (t : TableDef) → Agrees t t
same-Agrees t = (refl, Perm.refl _, refl, refl, refl, refl, Perm.refl _)

-- The models have `retries_used` behind the first twenty columns, the database has it last.
counted_runs-Agrees : Agrees counted_runs run_table
unfolding take drop
counted_runs-Agrees = (
  refl,
  Perm.append_left (take 20 runs.columns)
      (perm_middle {a = retries_used} (drop 20 runs.columns) []),
  refl,
  refl,
  refl,
  refl,
  Perm.cons _ (Perm.swap ix_runs_status ix_runs_reclaimable []),
)

head-Agrees : AgreeAll (indexed_invocations ∷ run_steps ∷ run_messages ∷ counted_runs ∷ []) metadata
head-Agrees = (
  same-Agrees indexed_invocations,
  (same-Agrees run_steps, (same-Agrees run_messages, (counted_runs-Agrees, tt))),
)

module _ {S : Type 0} (db : Postgres S) (laws : IsPostgres db) where
  -- From any database in which their names are free, all the migrations succeed, and add to its tables
  -- those that the models declare, which differ in the order of columns and of indexes at most.
  pub upgrade-Declared :
      (s : S)
      → AreFree run_names (db.catalog s)
      → AreFree invocation_names (db.catalog s)
      → (added : Catalog) × LeadsTo db upgrade_head s (added ++ db.catalog s)
        × AgreeAll added metadata
  unfolding upgrade_head
  upgrade-Declared s runs_free invocations_free =
      let c = db.catalog s in
      (
        indexed_invocations ∷ run_steps ∷ run_messages ∷ counted_runs ∷ [],
        migrate-LeadsTo db laws s refl (
            append-Leads (upgrade_runs c runs_free)
              (append-Leads (upgrade_invocations c invocations_free) (upgrade_retries c))),
        head-Agrees,
      )
