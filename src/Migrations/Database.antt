-- ===== src/Migrations/Database.antt =====
-- The migrations on a database that keeps what is documented of PostgreSQL and Alembic.

use agent_force.Prelude.{◌≡◌, refl, sym, subst, true, some, List, [], ◌∷◌, ◌++◌}
use agent_force.Effects.{ok, err}
use agent_force.Errors.{Exc}
use agent_force.Effects.Prog.{Prog, Call, returns, pure, call, ◌>>=◌}
use agent_force.Migrations.{
  Catalog, Ddl, create_table, TableDef, effect, Leads, done, step, is_taken,
}

-- A database `S`, what it does with an operation, and the tables that it has.
pub record Postgres (S : Type 0) : Type 0 where
  pub run : Ddl → Call S (Unit {0})
  pub catalog : S → Catalog

-- An operation that can be done is done, and a table whose name is taken is refused.
pub record IsPostgres {S : Type 0} (db : Postgres S) : Type 0 where
  pub performs :
      (d : Ddl) (s : S) (c : Catalog)
      → effect d (db.catalog s) ≡ some c
      → (s' : S) × (db.run d s ≡ (ok tt, s')) × (db.catalog s' ≡ c)
  pub refuses :
      (t : TableDef) (s : S)
      → is_taken (db.catalog s) t.name ≡ true
      → (e : Exc) × (s' : S) × (db.run (create_table t) s ≡ (err e, s'))

module _ {S : Type 0} (db : Postgres S) where
  -- `upgrade` or `downgrade` of a migration
  unfoldable pub migrate : List Ddl → Prog S (Unit {0})
  migrate [] = pure tt
  migrate (d ∷ ds) = call (db.run d) >>= λ _. migrate ds

  abbrev pub LeadsTo : List Ddl → S → Catalog → Type 0
  LeadsTo ds s c = (s' : S) × (migrate ds s ≡ (returns tt, s')) × (db.catalog s' ≡ c)

  module _ (laws : IsPostgres db) where
    pub migrate-LeadsTo :
        {ds : List Ddl} {c f : Catalog} (s : S) → db.catalog s ≡ c → Leads ds c f → LeadsTo ds s f
    unfolding migrate
    migrate-LeadsTo s e done = (s, refl, e)
    migrate-LeadsTo s e (step {d} m h rest) =
        let (s', ran, e') = laws.performs d s m (subst (λ x. effect d x ≡ some m) (sym e) h) in
        let (s'', more, e'') = migrate-LeadsTo s' e' rest in (s'', rw (ran, migrate) more, e'')

pub append-Leads :
    {ds es : List Ddl} {c e f : Catalog} → Leads ds c e → Leads es e f → Leads (ds ++ es) c f
append-Leads done rest = rest
append-Leads (step m h more) rest = step m h (append-Leads more rest)
