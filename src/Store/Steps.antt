-- ===== src/Store/Steps.antt =====
-- The histories of the store of app/adapters/db/memory.py: any operations, by any workers, in any
-- order and at any times.
use agent_force.Prelude.{ℕ, String, List}
use agent_force.Messages.{Message}
use agent_force.State.{NewRun, RunOutcome, RunStatus, StepRecord}
use agent_force.Store.Memory.{
  create, commit_step, finish, record_retry, claim, claim_next_reclaimable, renew, release,
  expire_lease,
}
use agent_force.Store.Records.{MemoryStore, empty_store}

pub data Step (s : MemoryStore) : MemoryStore → Type 0 where
  creates : (spec : NewRun) (id : ℕ) → Step s (create spec id s).1
  commits :
      (run_id : ℕ) (step : StepRecord) (ms : List Message) → Step s (commit_step run_id step ms s).1
  finishes : (run_id : ℕ) (outcome : RunOutcome) → Step s (finish run_id outcome s).1
  retries : (run_id : ℕ) → Step s (record_retry run_id s).1
  claims : (run_id : ℕ) (owner : String) (ttl now : ℕ) → Step s (claim run_id owner ttl now s).1
  reclaims : (owner : String) (ttl now : ℕ) → Step s (claim_next_reclaimable owner ttl now s).1
  renews : (run_id : ℕ) (owner : String) (ttl now : ℕ) → Step s (renew run_id owner ttl now s).1
  releases :
      (run_id : ℕ) (owner : String) (status : RunStatus) → Step s (release run_id owner status s).1
  expires : (run_id now : ℕ) → Step s (expire_lease run_id now s).1

pub data Reached : MemoryStore → Type 0 where
  started : Reached empty_store
  after : {s t : MemoryStore} → Reached s → Step s t → Reached t
