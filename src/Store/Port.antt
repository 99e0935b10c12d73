-- ===== src/Store/Port.antt =====
-- The in-memory run store as the loop sees it, with the world's clock as `datetime.now`.
use agent_force.Ports.{RunStore}
use agent_force.World.{World}
use agent_force.Store.Memory.{commit_step, finish, record_retry, claim, renew, release}

abbrev pub store_port : {E : Type 0} → RunStore (World E)
store_port = record {
  commit_step = λ run_id step messages w.
      let (r, s) = commit_step run_id step messages w.store in (r, record w { store = s });
  finish =
      λ run_id outcome w. let (r, s) = finish run_id outcome w.store in (r, record w { store = s });
  record_retry =
      λ run_id w. let (r, s) = record_retry run_id w.store in (r, record w { store = s });
  claim = λ run_id owner ttl w.
      let (r, s) = claim run_id owner ttl w.now w.store in (r, record w { store = s });
  renew = λ run_id owner ttl w.
      let (r, s) = renew run_id owner ttl w.now w.store in (r, record w { store = s });
  release = λ run_id owner status w.
      let (r, s) = release run_id owner status w.store in (r, record w { store = s });
}
