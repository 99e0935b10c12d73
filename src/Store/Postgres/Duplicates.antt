-- ===== src/Store/Postgres/Duplicates.antt =====
-- `commit_step` of app/adapters/db/run_store.py, once more for an index that was committed.
use agent_force.Prelude.{ℕ, ◌≡◌, refl, sym, ap, subst, ◌∙◌, some, List, arith, nat_Eq, true}
use agent_force.Prelude.Dict.{beq_self}
use agent_force.Effects.{ok, err}
use agent_force.Messages.{Message}
use agent_force.State.{StepRecord}
use agent_force.Database.Tables.{has_index}
use agent_force.Database.Numbering.{has_index-place}
use agent_force.Store.Memory.{already_committed}
use agent_force.Store.Postgres.Models.{Schema, Stored, IsSchema}
use agent_force.Store.Postgres.Records.{step_row}
use agent_force.Store.Postgres.Runs.{count_step, commit_step}
use agent_force.Store.Postgres.Repeats.{commit_step-wrote, write_step-inv, commit_step-taken}
use agent_force.Store.Postgres.Kept.{IsTaken, Transactions, Transactions-IsTaken}

module _ {R S M : Type 0} (q : Schema R S M) (laws : IsSchema q) where
  -- A commit that succeeds leaves its index taken.
  commit_step-takes :
      (run_id : ℕ) (step : StepRecord) (ms : List Message) (now : ℕ) (db db' : Stored R S M)
      → commit_step q run_id step ms now db ≡ (ok tt, db')
      → IsTaken q run_id step.idx db'
  unfolding step_row
  commit_step-takes run_id step ms now db db' h =
      let (run, there, w) = commit_step-wrote q run_id step ms now db db' h in
      let (s, m, a, b, e) = write_step-inv q run_id step ms now db db' w in
      let there' : q.runs.select run_id (q.runs.update run_id (count_step step now) db.runs)
          ≡ some (count_step step now run) =
        ground (
          arith,
          laws.runs.select_update run_id run_id (count_step step now) db.runs,
          beq_self run_id,
        ) in
      let taken : has_index (λ r. r.idx) step.idx (q.steps.rows run_id s) ≡ true =
        rw (laws.steps.rows_add run_id run_id (step_row step) db.steps s a, beq_self run_id)
          (has_index-place (λ r. r.idx) (step_row step) step.idx (q.steps.rows run_id db.steps)
            refl) in
      subst (IsTaken q run_id step.idx) e ((count_step step now run, there'), taken)

  -- A step is committed at most once: after a commit that succeeds, and any transactions of the store
  -- that follow it, of any workers and for any runs, a commit of a step with its index for the run, with
  -- whatever messages, is refused as already committed and leaves the database as it was.
  pub commit_step-no_duplicate :
      (run_id : ℕ) (step again : StepRecord) (ms others : List Message) (now later : ℕ)
      (db db' e : Stored R S M)
      → commit_step q run_id step ms now db ≡ (ok tt, db')
      → Transactions q db' e
      → again.idx ≡ step.idx
      → commit_step q run_id again others later e ≡ (err (already_committed run_id step.idx), e)
  commit_step-no_duplicate run_id step again ms others now later db db' e h between i =
      let ((run, there), taken) =
        Transactions-IsTaken q laws run_id step.idx (commit_step-takes run_id step ms now db db' h)
          between in
      commit_step-taken q laws run_id again others later e run there
        (subst (λ n. has_index (λ r. r.idx) n (q.steps.rows run_id e.steps) ≡ true) (sym i) taken)
      ∙ ap (λ n. (err (already_committed run_id n), e)) i
