-- ===== src/Database/Tables.antt =====
-- The tables of PostgreSQL as the statements of app/adapters/db reach them. The database is given
-- from outside: its state is a type of its own, and the laws are what the code relies on.
use agent_force.Prelude.{
  ℕ, ◌≡◌, ◌≤◌, Bool, true, false, Option, none, some, List, [], ◌∷◌, any, nat_eq, nat_Eq, ltb, Eq,
  ◌==◌, if◌then◌else◌,
}
use agent_force.Errors.{Exc, integrity_error}
use agent_force.Effects.{Result, ok, err, ◌>>=◌}

-- `except IntegrityError`
unfoldable pub is_integrity_error : Exc → Bool
is_integrity_error (integrity_error m) = true
is_integrity_error _ = false

abbrev pub Violates : {T : Type 0} → Result T → Type 0
Violates r = (e : Exc) × (r ≡ err e) × (is_integrity_error e ≡ true)

-- A table whose rows have one column of their own, the key, with a unique constraint. `select` reads
-- the row of a key, `first` is a SELECT with a condition, ORDER BY a column and LIMIT 1, `insert` adds
-- a row and `update` rewrites the row of a key. `refuses` says that a constraint other than the key's
-- does not admit a row.
pub record Table (K R T : Type 0) : Type 0 where
  pub select : K → T → Option R
  pub first : (K → R → Bool) → (R → ℕ) → T → Option (K × R)
  pub refuses : R → T → Bool
  pub insert : K → R → T → Result T
  pub update : K → (R → R) → T → T

abbrev pub mapped : {R : Type 0} → (R → R) → Option R → Option R
mapped f none = none
mapped f (some r) = some (f r)

pub record IsTable {K R T : Type 0} ⦃e : Eq K⦄ (t : Table K R T) : Type 0 where
  pub insert_new :
      (k : K) (r : R) (d : T)
      → t.select k d ≡ none
      → t.refuses r d ≡ false
      → (d' : T) × (t.insert k r d ≡ ok d')
  pub insert_taken : (k : K) (r s : R) (d : T) → t.select k d ≡ some s → Violates (t.insert k r d)
  pub insert_refused : (k : K) (r : R) (d : T) → t.refuses r d ≡ true → Violates (t.insert k r d)
  pub select_insert :
      (k j : K) (r : R) (d d' : T)
      → t.insert k r d ≡ ok d'
      → t.select j d' ≡ (if k == j then some r else t.select j d)
  pub select_update :
      (k j : K) (f : R → R) (d : T)
      → t.select j (t.update k f d) ≡ (if k == j then mapped f (t.select j d) else t.select j d)
  pub first_some :
      (p : K → R → Bool) (by : R → ℕ) (k : K) (r : R) (d : T)
      → t.first p by d ≡ some (k, r)
      → (t.select k d ≡ some r) × (p k r ≡ true)
  pub first_least :
      (p : K → R → Bool) (by : R → ℕ) (k : K) (r : R) (j : K) (s : R) (d : T)
      → t.first p by d ≡ some (k, r)
      → t.select j d ≡ some s
      → p j s ≡ true
      → by r ≤ by s
  pub first_none :
      (p : K → R → Bool) (by : R → ℕ) (k : K) (r : R) (d : T)
      → t.first p by d ≡ none
      → t.select k d ≡ some r
      → p k r ≡ false

-- The row goes where ORDER BY puts it.
unfoldable pub place : {R : Type 0} → (R → ℕ) → R → List R → List R
place at r [] = r ∷ []
place at r (s ∷ ss) = if ltb (at r) (at s) then r ∷ s ∷ ss else s ∷ place at r ss

-- A table whose rows belong to a run and have an index, with a unique constraint on the two: `rows`
-- reads a run's in the order of the index.
pub record Children (R T : Type 0) : Type 0 where
  pub rows : ℕ → T → List R
  pub add : ℕ → R → T → Result T

-- The rows that one flush of the session inserts, one after the other.
unfoldable pub add_all : {R T : Type 0} → Children R T → ℕ → List R → T → Result T
add_all c run [] d = ok d
add_all c run (r ∷ rs) d = c.add run r d >>= λ d'. add_all c run rs d'

abbrev pub has_index : {R : Type 0} → (R → ℕ) → ℕ → List R → Bool
has_index at i rows = any (λ s. nat_eq (at s) i) rows

pub record IsChildren {R T : Type 0} (at : R → ℕ) (c : Children R T) : Type 0 where
  pub add_new :
      (run : ℕ) (r : R) (d : T)
      → has_index at (at r) (c.rows run d) ≡ false
      → (d' : T) × (c.add run r d ≡ ok d')
  pub add_taken :
      (run : ℕ) (r : R) (d : T)
      → has_index at (at r) (c.rows run d) ≡ true
      → Violates (c.add run r d)
  pub rows_add :
      (run other : ℕ) (r : R) (d d' : T)
      → c.add run r d ≡ ok d'
      → c.rows other d' ≡ (if run == other then place at r (c.rows other d) else c.rows other d)
