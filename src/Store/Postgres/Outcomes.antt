-- ===== src/Store/Postgres/Outcomes.antt =====
-- What a run loads as after `finish`, `record_retry` and `claim` of app/adapters/db/run_store.py.
use agent_force.Prelude.{
  ℕ, ◌+◌, ◌≡◌, refl, ap, ◌∙◌, true, ◌&&◌, String, Option, none, some, List, arith, nat_Eq,
}
use agent_force.Prelude.Dict.{beq_self}
use agent_force.Effects.{Result, ok, ◌>>=◌}
use agent_force.Messages.{Message}
use agent_force.State.{RunRecord, RunOutcome, StepRecord, running}
use agent_force.Store.Records.{seconds}
use agent_force.Store.Postgres.Models.{RunRow, Schema, Stored, IsSchema}
use agent_force.Store.Postgres.Records.{record_of, answer_of, messages_from_rows, steps_from_rows}
use agent_force.Store.Postgres.Runs.{load, finish, close_row, output_of, record_retry, update_where}
use agent_force.Store.Postgres.Leases.{claim, lease_row, is_open, is_free}
use agent_force.Store.Postgres.Commits.{load-inv, load-parts}
use agent_force.Store.Postgres.Updates.{update_where-some}

answer_of-output_of : (answer : Option String) → answer_of (output_of answer) ≡ answer
unfolding answer_of
answer_of-output_of none = refl
answer_of-output_of (some t) = refl

-- A run with the outcome.
abbrev pub closed : RunOutcome → Option String → RunRecord → RunRecord
closed outcome answer r = record r {
  status = outcome.status;
  answer = answer;
  error_code = outcome.error_code;
  error_message = outcome.error_message;
  lease_owner = none;
  lease_expires_at = none;
}

-- A run under a lease.
abbrev pub lent : String → ℕ → ℕ → RunRecord → RunRecord
lent owner ttl now r = record r {
  status = running;
  lease_owner = some owner;
  lease_expires_at = some (now + seconds ttl);
}

abbrev retried : RunRow → RunRow
retried row = record row { retries_used = row.retries_used + 1 }

abbrev charge : RunRecord → Result ℕ
charge r = ok (r.retries_used + 1)

abbrev charged : RunRecord → Result RunRecord
charged r = ok (record r { retries_used = r.retries_used + 1 })

module _ {R S M : Type 0} (q : Schema R S M) (laws : IsSchema q) where
  pub load-update :
      (run_id : ℕ) (f : RunRow → RunRow) (db : Stored R S M) (run : RunRow) (ms : List Message)
      (ss : List StepRecord)
      → q.runs.select run_id db.runs ≡ some run
      → messages_from_rows (q.messages.rows run_id db.messages) ≡ ok ms
      → steps_from_rows (q.steps.rows run_id db.steps) ≡ ok ss
      → load q run_id (record db { runs = q.runs.update run_id f db.runs })
        ≡ ok (record_of run_id (f run) ms ss)
  load-update run_id f db run ms ss h m s =
      load-parts q run_id _ (f run) ms ss
        (ground (arith, laws.runs.select_update run_id run_id f db.runs, beq_self run_id)) m s

  pub finish-some :
      (run_id : ℕ) (outcome : RunOutcome) (now : ℕ) (db : Stored R S M) (run : RunRow)
      → q.runs.select run_id db.runs ≡ some run
      → finish q run_id outcome now db
        ≡ (ok tt, record db { runs = q.runs.update run_id (close_row outcome now) db.runs })
  unfolding finish
  finish-some run_id outcome now db run h = rw (h, finish) refl

  record_retry-some :
      (run_id : ℕ) (db : Stored R S M) (run : RunRow)
      → q.runs.select run_id db.runs ≡ some run
      → record_retry q run_id db
        ≡ (ok (run.retries_used + 1), record db { runs = q.runs.update run_id retried db.runs })
  unfolding record_retry
  record_retry-some run_id db run h =
      let updated = update_where-some q.runs laws.runs run_id (λ row. true) retried db.runs run h in
      rw (updated, record_retry)
        (ap (λ x. (ok (run.retries_used + 1), record db { runs = x.1 })) updated)

  claim-free :
      (run_id : ℕ) (owner : String) (ttl now : ℕ) (db : Stored R S M) (run : RunRow)
      → q.runs.select run_id db.runs ≡ some run
      → (is_open run.status && is_free run now) ≡ true
      → let db' : Stored R S M = record db {
        runs = q.runs.update run_id (lease_row owner ttl now) db.runs;
      } in
        claim q run_id owner ttl now db ≡ (load q run_id db' >>= (λ r. ok (some r)), db')
  unfolding claim
  claim-free run_id owner ttl now db run h t =
      let updated : update_where q.runs run_id (λ row. is_open row.status && is_free row now)
            (lease_row owner ttl now) db.runs
          ≡ (
            some (lease_row owner ttl now run),
            q.runs.update run_id (lease_row owner ttl now) db.runs,
          ) =
        update_where-some q.runs laws.runs run_id (λ row. is_open row.status && is_free row now)
          (lease_row owner ttl now) db.runs run h
        ∙ rw t refl in
      rw (updated, claim)
        (ap
          (λ x. (
            load q run_id (record db { runs = x.1 }) >>= (λ r. ok (some r)),
            record db { runs = x.1 },
          ))
          updated)

  -- A run that is finished loads with the outcome and without a lease, and is otherwise as it was.
  pub finish-closes :
      (run_id : ℕ) (outcome : RunOutcome) (now : ℕ) (db : Stored R S M) (r : RunRecord)
      → load q run_id db ≡ ok r
      → let (answer, db') = finish q run_id outcome now db in
        (answer ≡ ok tt) × (load q run_id db' ≡ ok (closed outcome outcome.answer r))
  unfolding close_row
  finish-closes run_id outcome now db r h =
      let (run, ms, ss, there, m, s, whole) = load-inv q run_id db r h in
      let old = record_of run_id run ms ss in
      rw (finish-some run_id outcome now db run there) (
        refl,
        load-update run_id (close_row outcome now) db run ms ss there m s
            ∙ ap (λ a. ok (closed outcome a old)) (answer_of-output_of outcome.answer)
            ∙ ap (λ x. ok (closed outcome outcome.answer x)) whole,
      )

  -- Each retry is charged once: the answer is one more than the run had, and the run loads with it.
  pub record_retry-charges :
      (run_id : ℕ) (db : Stored R S M) (r : RunRecord)
      → load q run_id db ≡ ok r
      → let (answer, db') = record_retry q run_id db in
        (answer ≡ ok (r.retries_used + 1))
        × (load q run_id db' ≡ ok (record r { retries_used = r.retries_used + 1 }))
  record_retry-charges run_id db r h =
      let (run, ms, ss, there, m, s, whole) = load-inv q run_id db r h in
      rw (record_retry-some run_id db run there)
        (ap charge whole, load-update run_id retried db run ms ss there m s ∙ ap charged whole)

  -- A run that is open and that nobody holds, or whose lease has ended, is lent to whoever claims it: the
  -- answer is the run as it was, now running under the claimant's lease, and it loads so.
  pub claim-lends :
      (run_id : ℕ) (owner : String) (ttl now : ℕ) (db : Stored R S M) (r : RunRecord) (run : RunRow)
      → load q run_id db ≡ ok r
      → q.runs.select run_id db.runs ≡ some run
      → is_open run.status ≡ true
      → is_free run now ≡ true
      → let (answer, db') = claim q run_id owner ttl now db in
        (answer ≡ ok (some (lent owner ttl now r)))
        × (load q run_id db' ≡ ok (lent owner ttl now r))
  unfolding lease_row
  claim-lends run_id owner ttl now db r row h g o f =
      let (run, ms, ss, there, m, s, whole) = load-inv q run_id db r h in
      let loads =
        load-update run_id (lease_row owner ttl now) db run ms ss there m s
        ∙ ap (λ x. ok (lent owner ttl now x)) whole in
      rw (claim-free run_id owner ttl now db row g (ground arith), loads) (refl, refl)
