-- ===== src/Migrations.antt =====
-- The DDL of the migrations in alembic/versions, and what the documentation of PostgreSQL says that it does
-- to the catalog of a database. The database itself, and Alembic, are given.
pub mod Runs
pub mod Invocations
pub mod Retries
pub mod Metadata
pub mod Upgrade
pub mod Downgrade
pub mod Database
pub mod Head
pub mod Back
use agent_force.Prelude.{
  ℕ, Bool, true, false, not, ◌&&◌, ◌||◌, ◌≡◌, String, Option, none, some, List, [], ◌∷◌, ◌++◌, map,
  any, str_eq, if◌then◌else◌,
}
use mathlib.Core.Option as Opt
use agent_force.Prelude.Text.{◌&◌}

pub data SqlType : Type 0 where
  uuid integer bigint text jsonb boolean timestamptz : SqlType
  varchar : ℕ → SqlType

-- `sa.Column`: the last field is the SQL text of the server's default.
pub record Column : Type 0 where
  pub name : String
  pub type : SqlType
  pub nullable : Bool
  pub server_default : Option String

abbrev pub column : String → SqlType → Bool → Option String → Column
column name type nullable server_default = record {
  name = name;
  type = type;
  nullable = nullable;
  server_default = server_default;
}

-- A condition on one column.
pub record Check : Type 0 where
  pub name : String
  pub column : String
  pub condition : String

-- A key into the column `id` of a table, with `ON DELETE CASCADE`.
pub record ForeignKey : Type 0 where
  pub column : String
  pub target : String

pub record Unique : Type 0 where
  pub name : String
  pub columns : List String

pub record Index : Type 0 where
  pub name : String
  pub columns : List String
  pub condition : Option String

pub record TableDef : Type 0 where
  pub name : String
  pub columns : List Column
  pub checks : List Check
  pub foreign_keys : List ForeignKey
  pub primary_key : String
  pub uniques : List Unique
  pub indexes : List Index

-- The operations of `alembic.op` that the migrations use.
pub data Ddl : Type 0 where
  create_table : TableDef → Ddl
  drop_table : String → Ddl
  create_index : String → Index → Ddl
  drop_index : String → String → Ddl
  add_column : String → Column → Ddl
  drop_column : String → String → Ddl

-- The tables of a database, the newest first.
abbrev pub Catalog : Type 0
Catalog = List TableDef

abbrev pub member : String → List String → Bool
member n = any (λ m. str_eq m n)

-- The names that a table takes up among the relations of its database: its own, and those of its indexes.
abbrev names_of : TableDef → List String
names_of t =
    t.name ∷ (t.name & "_pkey") ∷ map (λ u. u.name) t.uniques ++ map (λ i. i.name) t.indexes

abbrev pub is_taken : Catalog → String → Bool
is_taken c n = any (λ t. member n (names_of t)) c

abbrev pub has_table : String → Catalog → Bool
has_table n = any (λ t. str_eq t.name n)

-- Another table has a foreign key into this one.
abbrev pub is_referenced : Catalog → String → Bool
is_referenced c n =
    any (λ t. not (str_eq t.name n) && any (λ k. str_eq k.target n) t.foreign_keys) c

abbrev can_create : TableDef → Catalog → Bool
can_create t c =
    not (any (is_taken c) (names_of t))
    && not (any (λ k. not (str_eq k.target t.name || has_table k.target c)) t.foreign_keys)

abbrev without_table : String → Catalog → Catalog
without_table n [] = []
without_table n (t ∷ c) = if str_eq t.name n then c else t ∷ without_table n c

abbrev alter : String → (TableDef → Option TableDef) → Catalog → Option Catalog
alter n change [] = none
alter n change (t ∷ c) =
    let rest = alter n change c in
    if str_eq t.name n then Opt.map (λ u. u ∷ c) (change t) else Opt.map (λ d. t ∷ d) rest

abbrev without_index : String → List Index → Option (List Index)
without_index n [] = none
without_index n (i ∷ is) =
    let rest = without_index n is in
    if str_eq i.name n then some is else Opt.map (λ js. i ∷ js) rest

abbrev without_column : String → List Column → Option (List Column)
without_column n [] = none
without_column n (x ∷ xs) =
    let rest = without_column n xs in
    if str_eq x.name n then some xs else Opt.map (λ ys. x ∷ ys) rest

-- A key, an index or a condition of the table is about the column.
abbrev uses_column : String → TableDef → Bool
uses_column n t =
    str_eq t.primary_key n
    || (any (λ k. str_eq k.column n) t.checks
        || (any (λ k. str_eq k.column n) t.foreign_keys
            || (any (λ u. member n u.columns) t.uniques
                || any (λ i. member n i.columns) t.indexes)))

abbrev with_column : Column → TableDef → Option TableDef
with_column x t =
    if any (λ y. str_eq y.name x.name) t.columns
    then none
    else some (record t { columns = t.columns ++ x ∷ [] })

abbrev drop_from : String → TableDef → Option TableDef
drop_from n t =
    if uses_column n t
    then none
    else Opt.map (λ xs. record t { columns = xs }) (without_column n t.columns)

-- What an operation makes of the catalog, where it succeeds. Nothing is said of the other cases, nor of a
-- column that a key, an index or a condition uses.
unfoldable pub effect : Ddl → Catalog → Option Catalog
effect (create_table t) c = if can_create t c then some (t ∷ c) else none
effect (drop_table n) c =
    if has_table n c && not (is_referenced c n) then some (without_table n c) else none
effect (create_index n i) c =
    if is_taken c i.name
    then none
    else alter n (λ t. some (record t { indexes = t.indexes ++ i ∷ [] })) c
effect (drop_index i n) c =
    alter n (λ t. Opt.map (λ is. record t { indexes = is }) (without_index i t.indexes)) c
effect (add_column n x) c = alter n (with_column x) c
effect (drop_column n x) c = alter n (drop_from x) c

-- The operations of a migration succeed, one after the other, and lead from a catalog to another.
pub data Leads : List Ddl → Catalog → Catalog → Type 0 where
  done : {c : Catalog} → Leads [] c c
  step :
      {d : Ddl} {ds : List Ddl} {c f : Catalog} (e : Catalog)
      → effect d c ≡ some e
      → Leads ds e f
      → Leads (d ∷ ds) c f
