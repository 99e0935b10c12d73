-- ===== src/Store/Postgres/Commits.antt =====
-- `commit_step` of app/adapters/db/run_store.py: a step is committed as a whole, once, and reads back.
use agent_force.Prelude.{
  ℕ, ◌+◌, ◌≡◌, refl, sym, ap, ◌∙◌, none, some, List, [], ◌∷◌, ◌++◌, length, All, arith, nat_Eq,
  Option-cases, inl, inr,
}
use agent_force.Prelude.Dict.{beq_self}
use agent_force.Effects.{ok, bind-ok, ok-injective}
use agent_force.Messages.{Message}
use agent_force.Messages.RoundTrip.{IsReplayable}
use agent_force.State.{RunRecord, StepRecord, next_step_idx}
use agent_force.Database.Numbering.{IsNumbered, add-next, add_all-next}
use agent_force.Store.Records.{no_run}
use agent_force.Store.Postgres.Models.{RunRow, Schema, Stored, IsSchema}
use agent_force.Store.Postgres.Records.{
  to_record, record_of, step_row, message_rows, messages_from_rows, steps_from_rows,
}
use agent_force.Store.Postgres.Runs.{started, count_step, load, write_step, commit_step}
use agent_force.Store.Postgres.Reads.{
  without_creation, steps_from_rows-snoc, length-steps_from_rows, messages_from_rows-message_rows,
  messages_from_rows-append, message_rows-IsNumbered,
}

-- A run to which a step has been added.
abbrev pub with_step : RunRecord → StepRecord → List Message → RunRecord
with_step r step ms = record r {
  status = started r.status;
  messages = r.messages ++ ms;
  steps = r.steps ++ without_creation step ∷ [];
  usage = record {
    steps = step.idx + 1;
    input_tokens = r.usage.input_tokens + step.usage.input_tokens;
    output_tokens = r.usage.output_tokens + step.usage.output_tokens;
    cache_read_tokens = r.usage.cache_read_tokens + step.usage.cache_read_input_tokens;
  };
}

count_step-record :
    (id : ℕ) (run : RunRow) (step : StepRecord) (now : ℕ) (ms ns : List Message)
    (ss : List StepRecord)
    → record_of id (count_step step now run) (ms ++ ns) (ss ++ without_creation step ∷ [])
      ≡ with_step (record_of id run ms ss) step ns
unfolding count_step
count_step-record id run step now ms ns ss = refl

module _ {R S M : Type 0} (q : Schema R S M) where
  -- The steps and the messages of a run are numbered from 0, without gaps.
  pub record IsDense (run_id : ℕ) (db : Stored R S M) : Type 0 where
    pub steps : IsNumbered (λ r. r.idx) 0 (q.steps.rows run_id db.steps)
    pub messages : IsNumbered (λ r. r.idx) 0 (q.messages.rows run_id db.messages)

  pub load-some :
      (run_id : ℕ) (db : Stored R S M) (run : RunRow)
      → q.runs.select run_id db.runs ≡ some run
      → load q run_id db
        ≡ to_record run_id run (q.steps.rows run_id db.steps) (q.messages.rows run_id db.messages)
  unfolding load
  load-some run_id db run h = rw (h, load) refl

  pub load-none :
      (run_id : ℕ) (db : Stored R S M)
      → q.runs.select run_id db.runs ≡ none
      → load q run_id db ≡ no_run run_id
  unfolding load
  load-none run_id db h = rw (h, load) refl

  commit_step-written :
      (run_id : ℕ) (step : StepRecord) (ms : List Message) (now : ℕ) (db db' : Stored R S M)
      (run : RunRow)
      → q.runs.select run_id db.runs ≡ some run
      → write_step q run_id step ms now db ≡ ok db'
      → commit_step q run_id step ms now db ≡ (ok tt, db')
  unfolding commit_step
  commit_step-written run_id step ms now db db' run h w = rw (h, w, commit_step) refl

  pub load-parts :
      (run_id : ℕ) (db : Stored R S M) (run : RunRow) (ms : List Message) (ss : List StepRecord)
      → q.runs.select run_id db.runs ≡ some run
      → messages_from_rows (q.messages.rows run_id db.messages) ≡ ok ms
      → steps_from_rows (q.steps.rows run_id db.steps) ≡ ok ss
      → load q run_id db ≡ ok (record_of run_id run ms ss)
  unfolding to_record
  load-parts run_id db run ms ss h m s = rw (load-some run_id db run h, m, s) refl

  -- What a run that loads is made of.
  pub load-inv :
      (run_id : ℕ) (db : Stored R S M) (r : RunRecord)
      → load q run_id db ≡ ok r
      → (run : RunRow) × (ms : List Message) × (ss : List StepRecord) × (q.runs.select run_id
            db.runs
          ≡ some run)
        × (messages_from_rows (q.messages.rows run_id db.messages) ≡ ok ms)
        × (steps_from_rows (q.steps.rows run_id db.steps) ≡ ok ss)
        × (record_of run_id run ms ss ≡ r)
  unfolding to_record
  load-inv run_id db r h = elim (Option-cases (q.runs.select run_id db.runs)) [
    | inl n ↦
        absurd (let b : no_run run_id ≡ ok r = sym (load-none run_id db n) ∙ h in ground arith)
    | inr (run, n) ↦
        let (ms, e, k) =
          bind-ok (messages_from_rows (q.messages.rows run_id db.messages)) _ r
            (sym (load-some run_id db run n) ∙ h) in
        let (ss, e', k') = bind-ok (steps_from_rows (q.steps.rows run_id db.steps)) _ r k in
        (run, ms, ss, n, e, e', ok-injective k')
  ]

module _ {R S M : Type 0} (q : Schema R S M) (laws : IsSchema q) where
  -- The next step and its messages are written, at the end of what the run has.
  write_step-next :
      (run_id : ℕ) (step : StepRecord) (ms : List Message) (now : ℕ) (db : Stored R S M)
      → IsDense q run_id db
      → step.idx ≡ length (q.steps.rows run_id db.steps)
      → (s : S) × (m : M) × (write_step q run_id step ms now db
          ≡ ok (record {
            runs = q.runs.update run_id (count_step step now) db.runs;
            steps = s;
            messages = m;
          }))
        × (q.steps.rows run_id s ≡ q.steps.rows run_id db.steps ++ step_row step ∷ [])
        × (q.messages.rows run_id m
            ≡ q.messages.rows run_id db.messages
              ++ message_rows step.idx (length (q.messages.rows run_id db.messages)) ms)
        × IsDense q run_id (record {
          runs = q.runs.update run_id (count_step step now) db.runs;
          steps = s;
          messages = m;
        })
  unfolding write_step step_row
  write_step-next run_id step ms now db dense e =
      let (s, a, ra, na) =
        add-next (λ r. r.idx) q.steps laws.steps run_id (step_row step) db.steps dense.steps e in
      let (m, b, rb, nb) =
        add_all-next (λ r. r.idx) q.messages laws.messages run_id
          (message_rows step.idx (length (q.messages.rows run_id db.messages)) ms) db.messages
          dense.messages (message_rows-IsNumbered step.idx _ ms) in
      (s, m, rw (write_step, a, b) refl, ra, rb, record { steps = na; messages = nb })

  -- A step with the next index, whose messages can be read back, is committed; the run then loads as it
  -- did before, with the step and the messages, just as they were given, at its end and the tokens
  -- counted once (those that created the cache are not kept); and its rows are numbered as before.
  pub commit_step-replays :
      (run_id : ℕ) (step : StepRecord) (ms : List Message) (now : ℕ) (db : Stored R S M)
      (r : RunRecord)
      → IsDense q run_id db
      → load q run_id db ≡ ok r
      → step.idx ≡ next_step_idx r
      → All (λ m. All IsReplayable m.content) ms
      → let (answer, db') = commit_step q run_id step ms now db in
        (answer ≡ ok tt) × (load q run_id db' ≡ ok (with_step r step ms)) × IsDense q run_id db'
  unfolding to_record next_step_idx
  commit_step-replays run_id step ms now db r dense h e kept =
      let (run, olds, steps, there, mr, sr, whole) = load-inv q run_id db r h in
      let idx : step.idx ≡ length (q.steps.rows run_id db.steps) =
        e ∙ ap (λ x. length x.steps) (sym whole) ∙ length-steps_from_rows _ steps sr in
      let (s, m, w, ws, wm, dense') = write_step-next run_id step ms now db dense idx in
      let read = messages_from_rows-append (q.messages.rows run_id db.messages) _ olds ms mr (
        messages_from_rows-message_rows step.idx (length (q.messages.rows run_id db.messages)) ms
          kept) in
      rw (commit_step-written q run_id step ms now db _ run there w) (
        refl,
        load-parts q run_id _ (count_step step now run) (olds ++ ms)
              (steps ++ without_creation step ∷ [])
              (ground (
                arith,
                laws.runs.select_update run_id run_id (count_step step now) db.runs,
                beq_self run_id,
              ))
              (ap messages_from_rows wm ∙ read)
              (ap steps_from_rows ws
                ∙ steps_from_rows-snoc (q.steps.rows run_id db.steps) steps step sr)
            ∙ ap ok (
                count_step-record run_id run step now olds ms steps
                ∙ ap (λ x. with_step x step ms) whole),
        dense',
      )
