-- ===== src/Store/Postgres/Repeats.antt =====
-- `commit_step` of app/adapters/db/run_store.py: what it has found and written, where the index is
-- taken, and for another run.
use agent_force.Prelude.{
  ℕ, ◌≡◌, ◌≢◌, refl, sym, ap, ◌∙◌, true, false, none, some, List, length, arith, nat_Eq, ◌==◌,
  Bool-cases, Option-cases, inl, inr, if◌then◌else◌, nat_eq_iff,
}
use agent_force.Effects.{ok, err, Result-cases, bind-ok, ok-injective}
use agent_force.Messages.{Message}
use agent_force.State.{StepRecord}
use agent_force.Database.Tables.{add_all, is_integrity_error, has_index}
use agent_force.Database.Numbering.{rows-add, rows-add_all}
use agent_force.Store.Memory.{already_committed}
use agent_force.Store.Records.{no_run}
use agent_force.Store.Postgres.Models.{RunRow, Schema, Stored, IsSchema}
use agent_force.Store.Postgres.Records.{to_record, step_row, message_rows}
use agent_force.Store.Postgres.Runs.{count_step, load, write_step, commit_step}
use agent_force.Store.Postgres.Commits.{load-some, load-none}

different : (a b : ℕ) → a ≢ b → (a == b) ≡ false
different a b n = elim (Bool-cases (a == b)) [
  | inl e ↦ absurd (n ((nat_eq_iff a b).0 e))
  | inr e ↦ e
]

module _ {R S M : Type 0} (q : Schema R S M) where
  -- What `load` reads decides what it gives.
  load-alike :
      (run_id : ℕ) (db db' : Stored R S M)
      → q.runs.select run_id db.runs ≡ q.runs.select run_id db'.runs
      → q.steps.rows run_id db.steps ≡ q.steps.rows run_id db'.steps
      → q.messages.rows run_id db.messages ≡ q.messages.rows run_id db'.messages
      → load q run_id db ≡ load q run_id db'
  load-alike run_id db db' r s m = elim (Option-cases (q.runs.select run_id db.runs)) [
    | inl e ↦ load-none q run_id db e ∙ sym (load-none q run_id db' (sym r ∙ e))
    | inr (run, e) ↦
        load-some q run_id db run e
        ∙ ap (λ x. to_record run_id run x (q.messages.rows run_id db.messages)) s
        ∙ ap (to_record run_id run (q.steps.rows run_id db'.steps)) m
        ∙ sym (load-some q run_id db' run (sym r ∙ e))
  ]

  pub commit_step-some :
      (run_id : ℕ) (step : StepRecord) (ms : List Message) (now : ℕ) (db : Stored R S M)
      (run : RunRow)
      → q.runs.select run_id db.runs ≡ some run
      → commit_step q run_id step ms now db ≡ elim (write_step q run_id step ms now db) [
        | ok db' ↦ (ok tt, db')
        | err e ↦
            ((if is_integrity_error e then err (already_committed run_id step.idx) else err e), db)
      ]
  unfolding commit_step
  commit_step-some run_id step ms now db run h = rw (h, commit_step) refl

  pub commit_step-none :
      (run_id : ℕ) (step : StepRecord) (ms : List Message) (now : ℕ) (db : Stored R S M)
      → q.runs.select run_id db.runs ≡ none
      → commit_step q run_id step ms now db ≡ (no_run run_id, db)
  unfolding commit_step
  commit_step-none run_id step ms now db h = rw (h, commit_step) refl

  -- What has been written.
  pub write_step-inv :
      (run_id : ℕ) (step : StepRecord) (ms : List Message) (now : ℕ) (db db' : Stored R S M)
      → write_step q run_id step ms now db ≡ ok db'
      → (s : S) × (m : M) × (q.steps.add run_id (step_row step) db.steps ≡ ok s)
        × (add_all q.messages run_id
              (message_rows step.idx (length (q.messages.rows run_id db.messages)) ms)
              db.messages
            ≡ ok m)
        × (record {
          runs = q.runs.update run_id (count_step step now) db.runs;
          steps = s;
          messages = m;
        }
            ≡ db')
  unfolding write_step
  write_step-inv run_id step ms now db db' h =
      let (s, a, k) = bind-ok (q.steps.add run_id (step_row step) db.steps) _ db' h in
      let (m, b, k') =
        bind-ok
          (add_all q.messages run_id
            (message_rows step.idx (length (q.messages.rows run_id db.messages)) ms) db.messages)
          _ db' k in
      (s, m, a, b, ok-injective k')

  -- What a commit that succeeds has found and written.
  pub commit_step-wrote :
      (run_id : ℕ) (step : StepRecord) (ms : List Message) (now : ℕ) (db db' : Stored R S M)
      → commit_step q run_id step ms now db ≡ (ok tt, db')
      → (run : RunRow) × (q.runs.select run_id db.runs ≡ some run)
        × (write_step q run_id step ms now db ≡ ok db')
  commit_step-wrote run_id step ms now db db' h =
      elim (Option-cases (q.runs.select run_id db.runs)) [
        | inl n ↦ absurd (ground (arith, commit_step-none run_id step ms now db n))
        | inr (run, n) ↦ elim (Result-cases (write_step q run_id step ms now db)) [
          | inl (d, w) ↦
              let c = sym (commit_step-some run_id step ms now db run n) ∙ h in
              (run, n, ground arith)
          | inr (e, w) ↦
              let c = sym (commit_step-some run_id step ms now db run n) ∙ h in
              absurd (elim (Bool-cases (is_integrity_error e)) [
                | inl b ↦ ground arith
                | inr b ↦ ground arith
              ])
        ]
      ]

module _ {R S M : Type 0} (q : Schema R S M) (laws : IsSchema q) where
  pub commit_step-taken :
      (run_id : ℕ) (step : StepRecord) (ms : List Message) (now : ℕ) (db : Stored R S M)
      (run : RunRow)
      → q.runs.select run_id db.runs ≡ some run
      → has_index (λ r. r.idx) step.idx (q.steps.rows run_id db.steps) ≡ true
      → commit_step q run_id step ms now db ≡ (err (already_committed run_id step.idx), db)
  unfolding write_step step_row
  commit_step-taken run_id step ms now db run h t =
      let (e, a, i) = laws.steps.add_taken run_id (step_row step) db.steps t in
      let w : write_step q run_id step ms now db ≡ err e = rw (write_step, a) refl in
      commit_step-some q run_id step ms now db run h ∙ ground arith

  -- A commit touches no other run: whatever it answers, every other run loads as before.
  pub commit_step-isolated :
      (run_id other : ℕ) (step : StepRecord) (ms : List Message) (now : ℕ) (db : Stored R S M)
      → run_id ≢ other
      → load q other (commit_step q run_id step ms now db).1 ≡ load q other db
  commit_step-isolated run_id other step ms now db n =
      elim (Option-cases (q.runs.select run_id db.runs)) [
        | inl e ↦ rw (commit_step-none q run_id step ms now db e) refl
        | inr (run, e) ↦ elim (Result-cases (write_step q run_id step ms now db)) [
          | inl (db', w) ↦
              let (s, m, a, b, k) = write_step-inv q run_id step ms now db db' w in
              let c = different run_id other n in
              rw (commit_step-some q run_id step ms now db run e, w, sym k)
                (load-alike q other _ db
                  (rw (laws.runs.select_update run_id other (count_step step now) db.runs, c) refl)
                  (rows-add (λ r. r.idx) q.steps laws.steps run_id other (step_row step) db.steps s
                    a c)
                  (rows-add_all (λ r. r.idx) q.messages laws.messages run_id other _ db.messages m b
                    c))
          | inr (x, w) ↦ rw (commit_step-some q run_id step ms now db run e, w) refl
        ]
      ]
