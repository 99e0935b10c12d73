-- ===== src/Migrations/Back.antt =====
-- What the migrations leave of a database when they are taken back.

use agent_force.Prelude.{◌≡◌, refl, sym, subst, some, ◌++◌}
use agent_force.Errors.{Exc}
use agent_force.Effects.Prog.{returns, raises}
use agent_force.Migrations.{Catalog, drop_column, effect}
use agent_force.Migrations.Runs.{run_steps, run_messages, runs, ix_runs_status, ix_runs_reclaimable}
use agent_force.Migrations.Runs as Runs
use agent_force.Migrations.Invocations as Invocations
use agent_force.Migrations.Retries as Retries
use agent_force.Migrations.Retries.{retries_used, test_side_effects}
use agent_force.Migrations.Database.{
  Postgres, IsPostgres, migrate, LeadsTo, migrate-LeadsTo, append-Leads,
}
use agent_force.Migrations.Upgrade.{
  AreFree, run_names, invocation_names, second, third, upgrade_runs, upgrade_invocations,
}
use agent_force.Migrations.Downgrade.{
  AreUnreferenced, our_tables, scratch_names, scratch, downgrade_runs, downgrade_invocations,
  downgrade_retries, upgrade_again,
}

module _ {S : Type 0} (db : Postgres S) (laws : IsPostgres db) where
  -- `Retries.downgrade` where its tables are there already.
  refuses_again :
      (c : Catalog) (s : S)
      → db.catalog s ≡ scratch (third c)
      → (e : Exc) × (s' : S) × (migrate db Retries.downgrade s ≡ (raises e, s'))
  unfolding migrate effect Retries.downgrade
  refuses_again c s h =
      let (t, dropped, now) =
        laws.performs (drop_column "runs" "retries_used") s (scratch (second c)) (
          subst (λ x. effect (drop_column "runs" "retries_used") x ≡ some (scratch (second c)))
            (sym h) refl) in
      let (e, u, refused) = laws.refuses test_side_effects t (rw now refl) in
      (e, u, rw (dropped, refused, migrate) refl)

  -- Where the names of a migration are free and no other table has a key into its tables, the first two
  -- migrations, taken back, leave the tables that there were.
  pub downgrade-upgrade :
      (s : S)
      → AreFree run_names (db.catalog s)
      → AreFree invocation_names (db.catalog s)
      → AreUnreferenced our_tables (db.catalog s)
      → LeadsTo db (Runs.upgrade ++ Runs.downgrade) s (db.catalog s)
        × LeadsTo db
            (Runs.upgrade ++ (Invocations.upgrade ++ (Invocations.downgrade ++ Runs.downgrade)))
            s
            (db.catalog s)
  downgrade-upgrade s runs_free invocations_free unreferenced =
      let c = db.catalog s in
      let up = upgrade_runs c runs_free in
      let down = downgrade_runs c unreferenced in
      let both = append-Leads (downgrade_invocations c unreferenced) down in
      (
        migrate-LeadsTo db laws s refl (append-Leads up down),
        migrate-LeadsTo db laws s refl
            (append-Leads up (append-Leads (upgrade_invocations c invocations_free) both)),
      )

  -- The third migration, taken back, leaves two tables that were not there, whose names were free; and when
  -- it is then applied once more, it cannot be taken back again.
  pub downgrade_retries-leaves :
      (c : Catalog) (s : S)
      → db.catalog s ≡ third c
      → AreFree scratch_names c
      → (t : S) × (migrate db Retries.downgrade s ≡ (returns tt, t))
        × (db.catalog t ≡ scratch (second c))
        × (u : S) × (migrate db Retries.upgrade t ≡ (returns tt, u))
        × (e : Exc) × (v : S) × (migrate db Retries.downgrade u ≡ (raises e, v))
  downgrade_retries-leaves c s h free =
      let (t, down, left) = migrate-LeadsTo db laws s h (downgrade_retries c free) in
      let (u, up, again) = migrate-LeadsTo db laws t left (upgrade_again c) in
      let (e, v, refused) = refuses_again c u again in (t, down, left, u, up, e, v, refused)
