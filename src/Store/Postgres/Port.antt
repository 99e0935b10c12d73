-- ===== src/Store/Postgres/Port.antt =====
-- The PostgreSQL store as the loop sees it, with the database's clock as an argument of the world.
use agent_force.Prelude.{ℕ}
use agent_force.Ports.{RunStore}
use agent_force.Store.Postgres.Models.{Schema, Stored}
use agent_force.Store.Postgres.Runs.{commit_step, finish, record_retry}
use agent_force.Store.Postgres.Leases.{claim, renew, release}

pub record PostgresWorld (R S M E : Type 0) : Type 0 where
  pub db : Stored R S M
  pub now : ℕ
  pub env : E

abbrev pub store_port : {R S M E : Type 0} → Schema R S M → RunStore (PostgresWorld R S M E)
store_port q = record {
  commit_step = λ run_id step messages w.
      let (r, db) = commit_step q run_id step messages w.now w.db in (r, record w { db = db });
  finish = λ run_id outcome w.
      let (r, db) = finish q run_id outcome w.now w.db in (r, record w { db = db });
  record_retry = λ run_id w. let (r, db) = record_retry q run_id w.db in (r, record w { db = db });
  claim = λ run_id owner ttl w.
      let (r, db) = claim q run_id owner ttl w.now w.db in (r, record w { db = db });
  renew = λ run_id owner ttl w.
      let (r, db) = renew q run_id owner ttl w.now w.db in (r, record w { db = db });
  release = λ run_id owner status w.
      let (r, db) = release q run_id owner status w.db in (r, record w { db = db });
}
