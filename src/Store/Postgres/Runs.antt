-- ===== src/Store/Postgres/Runs.antt =====
-- The operations of `PostgresRunStore`. Each transaction is one step: it commits as a whole, or, where
-- it raises, leaves the database as it was. `func.now()` and `datetime.now` are the argument `now`.
use agent_force.Prelude.{
  ℕ, ◌+◌, Bool, true, false, ◌&&◌, String, Option, none, some, List, length, str_eq, if◌then◌else◌,
}
use agent_force.Errors.{Exc}
use agent_force.Effects.{Result, ok, err, ◌>>=◌}
use agent_force.Json.{Fields, string, end, field}
use agent_force.Messages.{Message}
use agent_force.State.{RunStatus, NewRun, RunRecord, RunOutcome, StepRecord, queued, running}
use agent_force.Database.Tables.{add_all, Table, is_integrity_error}
use agent_force.Store.Memory.{already_committed}
use agent_force.Store.Records.{no_run}
use agent_force.Store.Postgres.Models.{RunRow, Schema, Stored}
use agent_force.Store.Postgres.Records.{new_row, step_row, message_rows, to_record}

-- `if run.status == RunStatus.QUEUED.value:` sets the status and the time.
abbrev pub started : RunStatus → RunStatus
started queued = running
started status = status

abbrev pub start_time : RunStatus → ℕ → Option ℕ → Option ℕ
start_time queued now at = some now
start_time status now at = at

-- `run.steps_taken = …` and the lines after it, in `commit_step`.
unfoldable pub count_step : StepRecord → ℕ → RunRow → RunRow
count_step step now run = record run {
  steps_taken = step.idx + 1;
  input_tokens = run.input_tokens + step.usage.input_tokens;
  output_tokens = run.output_tokens + step.usage.output_tokens;
  cache_read_tokens = run.cache_read_tokens + step.usage.cache_read_input_tokens;
  status = started run.status;
  started_at = start_time run.status now run.started_at;
}

-- `{"answer": outcome.answer}`
abbrev pub output_of : Option String → Option Fields
output_of none = none
output_of (some answer) = some (field "answer" (string answer) end)

unfoldable pub close_row : RunOutcome → ℕ → RunRow → RunRow
close_row outcome now run = record run {
  status = outcome.status;
  output = output_of outcome.answer;
  error_code = outcome.error_code;
  error_message = outcome.error_message;
  completed_at = some now;
  lease_owner = none;
  lease_expires_at = none;
}

-- `UPDATE … WHERE id = k AND test … RETURNING`: the row as it has become, if there is one.
unfoldable pub update_where :
    {K R T : Type 0} → Table K R T → K → (R → Bool) → (R → R) → T → Option R × T
update_where t k test f d = elim (t.select k d) [
  | none ↦ (none, d)
  | some r ↦ (if test r then (some (f r), t.update k f d) else (none, d))
]

-- `Run.tenant_id == tenant_id, Run.idempotency_key == key`
unfoldable pub has_key : String → String → RunRow → Bool
has_key tenant_id key run =
    str_eq run.tenant_id tenant_id
    && elim run.idempotency_key [ none ↦ false | some k ↦ str_eq k key ]

module _ {R S M : Type 0} (q : Schema R S M) where
  unfoldable pub load : ℕ → Stored R S M → Result RunRecord
  unfolding to_record
  load run_id db = elim (q.runs.select run_id db.runs) [
    | none ↦ no_run run_id
    | some run ↦
        to_record run_id run (q.steps.rows run_id db.steps) (q.messages.rows run_id db.messages)
  ]

  -- `_find_by_idempotency_key`; the constraint admits one row.
  unfoldable pub find_by_idempotency_key :
      String → String → Stored R S M → Result (Option RunRecord)
  unfolding has_key to_record
  find_by_idempotency_key tenant_id key db =
      elim (q.runs.first (λ id run. has_key tenant_id key run) (λ run. 0) db.runs) [
        | none ↦ ok none
        | some (id, run) ↦
            to_record id run (q.steps.rows id db.steps) (q.messages.rows id db.messages) >>= λ r.
            ok (some r)
      ]

  -- `except IntegrityError` of `create`
  unfoldable pub existing : NewRun → Exc → Stored R S M → Result RunRecord
  unfolding find_by_idempotency_key
  existing spec e db = elim spec.idempotency_key [
    | none ↦ err e
    | some key ↦ find_by_idempotency_key spec.tenant_id key db >>= λ found. elim found [
      | none ↦ err e
      | some r ↦ ok r
    ]
  ]

  unfoldable pub create : NewRun → ℕ → ℕ → Stored R S M → Result RunRecord × Stored R S M
  unfolding new_row is_integrity_error existing load
  create spec id now db = elim (q.runs.insert id (new_row spec now) db.runs) [
    | ok runs ↦ let db' : Stored R S M = record db { runs = runs } in (load id db', db')
    | err e ↦ ((if is_integrity_error e then existing spec e db else err e), db)
  ]

  -- The writes of `commit_step`, where the run is there.
  unfoldable pub write_step :
      ℕ → StepRecord → List Message → ℕ → Stored R S M → Result (Stored R S M)
  unfolding step_row message_rows add_all count_step
  write_step run_id step messages now db = do
    let next_idx = length (q.messages.rows run_id db.messages)
    steps ← q.steps.add run_id (step_row step) db.steps
    messages ← add_all q.messages run_id (message_rows step.idx next_idx messages) db.messages
    ok (record {
      runs = q.runs.update run_id (count_step step now) db.runs;
      steps = steps;
      messages = messages;
    })

  unfoldable pub commit_step :
      ℕ → StepRecord → List Message → ℕ → Stored R S M → Result (Unit {0}) × Stored R S M
  unfolding write_step is_integrity_error already_committed
  commit_step run_id step messages now db = elim (q.runs.select run_id db.runs) [
    | none ↦ (no_run run_id, db)
    | some run ↦ elim (write_step run_id step messages now db) [
      | ok db' ↦ (ok tt, db')
      | err e ↦
          ((if is_integrity_error e then err (already_committed run_id step.idx) else err e), db)
    ]
  ]

  unfoldable pub finish : ℕ → RunOutcome → ℕ → Stored R S M → Result (Unit {0}) × Stored R S M
  unfolding close_row
  finish run_id outcome now db = elim (q.runs.select run_id db.runs) [
    | none ↦ (no_run run_id, db)
    | some run ↦ (ok tt, record db { runs = q.runs.update run_id (close_row outcome now) db.runs })
  ]

  -- An UPDATE of the run with a condition, in a transaction of its own.
  abbrev pub update_run :
      ℕ → (RunRow → Bool) → (RunRow → RunRow) → Stored R S M → Option RunRow × Stored R S M
  update_run run_id test f db =
      let (row, runs) = update_where q.runs run_id test f db.runs in
      (row, record db { runs = runs })

  unfoldable pub record_retry : ℕ → Stored R S M → Result ℕ × Stored R S M
  unfolding update_where
  record_retry run_id db =
      let (row, db') =
        update_run run_id (λ run. true) (λ run. record run { retries_used = run.retries_used + 1 })
          db in
      elim row [ none ↦ (no_run run_id, db') | some run ↦ (ok run.retries_used, db') ]
