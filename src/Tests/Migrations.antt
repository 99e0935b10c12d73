-- ===== src/Tests/Migrations.antt =====
-- A database that is its catalog, with a table of its own.
use agent_force.Prelude.{◌≡◌, refl, true, false, none, some, Option, [], ◌∷◌, ◌++◌}
use agent_force.Effects.{Result, ok, err}
use agent_force.Errors.{Exc, other}
use agent_force.Effects.Prog.{returns, raises}
use agent_force.Migrations.{Catalog, create_table, column, TableDef, uuid, effect, is_taken}
use agent_force.Migrations.Runs as Runs
use agent_force.Migrations.Invocations as Invocations
use agent_force.Migrations.Retries as Retries
use agent_force.Migrations.Database.{Postgres, IsPostgres, migrate, LeadsTo}
use agent_force.Migrations.Metadata.{metadata, AgreeAll}
use agent_force.Migrations.Upgrade.{second, third}
use agent_force.Migrations.Downgrade.{scratch}
use agent_force.Migrations.Head.{upgrade_head, upgrade-Declared}
use agent_force.Migrations.Back.{downgrade-upgrade, downgrade_retries-leaves}

abbrev own_table : TableDef
own_table = record {
  name = "alembic_version";
  columns = column "version_num" uuid false none ∷ [];
  checks = [];
  foreign_keys = [];
  primary_key = "version_num";
  uniques = [];
  indexes = [];
}

abbrev settled : Option Catalog → Catalog → Result (Unit {0}) × Catalog
settled none c = (err (other "ProgrammingError" "refused"), c)
settled (some d) c = (ok tt, d)

database : Postgres Catalog
unfolding effect
database = record { run = λ d c. settled (effect d c) c; catalog = λ c. c }

database-refuses :
    (t : TableDef) (c : Catalog)
    → is_taken c t.name ≡ true
    → (e : Exc) × (s : Catalog) × (database.run (create_table t) c ≡ (err e, s))
unfolding database effect
database-refuses t c h = (other "ProgrammingError" "refused", c, rw (h, effect) refl)

database-IsPostgres : IsPostgres database
unfolding database
database-IsPostgres = record {
  performs = λ d c e h. (e, rw h refl, refl);
  refuses = database-refuses;
}

upgrade-Declared_example :
    (added : Catalog) × LeadsTo database upgrade_head (own_table ∷ []) (added ++ own_table ∷ [])
    × AgreeAll added metadata
unfolding database
upgrade-Declared_example =
    upgrade-Declared database database-IsPostgres (own_table ∷ [])
      (
        refl,
        (refl, (refl, (refl, (refl, (refl, (refl, (refl, (refl, (refl, (refl, (refl, tt))))))))))),
      )
      (refl, (refl, (refl, (refl, tt))))

downgrade-upgrade_example :
    LeadsTo database (Runs.upgrade ++ Runs.downgrade) (own_table ∷ []) (own_table ∷ [])
    × LeadsTo database
        (Runs.upgrade ++ (Invocations.upgrade ++ (Invocations.downgrade ++ Runs.downgrade)))
        (own_table ∷ [])
        (own_table ∷ [])
unfolding database
downgrade-upgrade_example =
    downgrade-upgrade database database-IsPostgres (own_table ∷ [])
      (
        refl,
        (refl, (refl, (refl, (refl, (refl, (refl, (refl, (refl, (refl, (refl, (refl, tt))))))))))),
      )
      (refl, (refl, (refl, (refl, tt)))) (refl, (refl, (refl, (refl, tt))))

downgrade_retries-leaves_example :
    (t : Catalog) × (migrate database Retries.downgrade (third []) ≡ (returns tt, t))
    × (database.catalog t ≡ scratch (second []))
    × (u : Catalog) × (migrate database Retries.upgrade t ≡ (returns tt, u))
    × (e : Exc) × (v : Catalog) × (migrate database Retries.downgrade u ≡ (raises e, v))
unfolding database
downgrade_retries-leaves_example =
    downgrade_retries-leaves database database-IsPostgres [] (third []) refl
      (refl, (refl, (refl, (refl, (refl, tt)))))
