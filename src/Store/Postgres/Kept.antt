-- ===== src/Store/Postgres/Kept.antt =====
-- What an operation of `PostgresRunStore` leaves there: a run that was created stays, and so do the
-- indices of its steps.
use agent_force.Prelude.{
  ℕ, ◌+◌, ◌&&◌, ◌≡◌, refl, sym, Bool, true, String, Option, none, some, List, nat_Eq, ◌==◌,
  Bool-cases, Option-cases, inl, inr, arith,
}
use agent_force.Effects.{Result-cases}
use agent_force.Messages.{Message}
use agent_force.State.{NewRun, RunStatus, RunOutcome, StepRecord}
use agent_force.Database.Tables.{mapped, has_index}
use agent_force.Database.Numbering.{has_index-place_more}
use agent_force.Store.Records.{seconds}
use agent_force.Store.Postgres.Models.{RunRow, Schema, Stored, IsSchema}
use agent_force.Store.Postgres.Records.{new_row, step_row}
use agent_force.Store.Postgres.Runs.{
  create, commit_step, write_step, count_step, finish, close_row, record_retry, update_run,
  update_where,
}
use agent_force.Store.Postgres.Leases.{
  claim, claim_next_reclaimable, renew, release, lease_row, is_candidate, is_open, is_free,
  row_owned_by, row_is_live,
}
use agent_force.Store.Postgres.Updates.{select-update_where}
use agent_force.Store.Postgres.Repeats.{commit_step-some, commit_step-none, write_step-inv}

module _ {R S M : Type 0} (q : Schema R S M) where
  -- One transaction of the store, of any worker and for any run.
  pub data Transaction (db : Stored R S M) : Stored R S M → Type 0 where
    creates : (spec : NewRun) (id now : ℕ) → Transaction db (create q spec id now db).1
    commits :
        (run_id : ℕ) (step : StepRecord) (ms : List Message) (now : ℕ)
        → Transaction db (commit_step q run_id step ms now db).1
    finishes :
        (run_id : ℕ) (outcome : RunOutcome) (now : ℕ)
        → Transaction db (finish q run_id outcome now db).1
    retries : (run_id : ℕ) → Transaction db (record_retry q run_id db).1
    claims :
        (run_id : ℕ) (owner : String) (ttl now : ℕ)
        → Transaction db (claim q run_id owner ttl now db).1
    reclaims :
        (locked : ℕ → Bool) (owner : String) (ttl now : ℕ)
        → Transaction db (claim_next_reclaimable q locked owner ttl now db).1
    renews :
        (run_id : ℕ) (owner : String) (ttl now : ℕ)
        → Transaction db (renew q run_id owner ttl now db).1
    releases :
        (run_id : ℕ) (owner : String) (status : RunStatus)
        → Transaction db (release q run_id owner status db).1

  pub data Transactions (db : Stored R S M) : Stored R S M → Type 0 where
    nothing : Transactions db db
    and_then : {d e : Stored R S M} → Transactions db d → Transaction d e → Transactions db e

  -- The run is there, and has a step with the index.
  abbrev pub IsTaken : ℕ → ℕ → Stored R S M → Type 0
  IsTaken run_id idx db =
      ((run : RunRow) × (q.runs.select run_id db.runs ≡ some run))
      × (has_index (λ r. r.idx) idx (q.steps.rows run_id db.steps) ≡ true)

module _ {R S M : Type 0} (q : Schema R S M) (laws : IsSchema q) (run_id idx : ℕ) where
  mapped-some :
      (f : RunRow → RunRow) (r : Option RunRow)
      → (run : RunRow) × (r ≡ some run)
      → (run : RunRow) × (mapped f r ≡ some run)
  mapped-some f none (run, e) = absurd (ground arith)
  mapped-some f (some r) (run, e) = (f r, cc)

  -- An UPDATE keeps every run.
  update-there :
      (k : ℕ) (f : RunRow → RunRow) (d : R)
      → (run : RunRow) × (q.runs.select run_id d ≡ some run)
      → (run : RunRow) × (q.runs.select run_id (q.runs.update k f d) ≡ some run)
  update-there k f d h =
      rw (laws.runs.select_update k run_id f d) (elim (Bool-cases (k == run_id)) [
        | inl b ↦ rw b (mapped-some f (q.runs.select run_id d) h)
        | inr b ↦ rw b h
      ])

  update_run-IsTaken :
      (k : ℕ) (test : RunRow → Bool) (f : RunRow → RunRow) (db : Stored R S M)
      → IsTaken q run_id idx db
      → IsTaken q run_id idx (update_run q k test f db).1
  update_run-IsTaken k test f db (h, t) = (
    rw (select-update_where q.runs laws.runs k run_id test f db.runs)
        (elim (Bool-cases (k == run_id)) [
          | inl b ↦ rw b (mapped-some _ (q.runs.select run_id db.runs) h)
          | inr b ↦ rw b h
        ]),
    t,
  )

  create-IsTaken :
      (spec : NewRun) (id now : ℕ) (db : Stored R S M)
      → IsTaken q run_id idx db
      → IsTaken q run_id idx (create q spec id now db).1
  unfolding create
  create-IsTaken spec id now db (h, t) =
      elim (Result-cases (q.runs.insert id (new_row spec now) db.runs)) [
        | inl (d, e) ↦
            rw (e, create)
              (
                rw (laws.runs.select_insert id run_id (new_row spec now) db.runs d e)
                    (elim (Bool-cases (id == run_id)) [
                      | inl b ↦ rw b (new_row spec now, refl)
                      | inr b ↦ rw b h
                    ]),
                t,
              )
        | inr (x, e) ↦ rw (e, create) (h, t)
      ]

  commit_step-IsTaken :
      (k : ℕ) (step : StepRecord) (ms : List Message) (now : ℕ) (db : Stored R S M)
      → IsTaken q run_id idx db
      → IsTaken q run_id idx (commit_step q k step ms now db).1
  commit_step-IsTaken k step ms now db (h, t) = elim (Option-cases (q.runs.select k db.runs)) [
    | inl n ↦ rw (commit_step-none q k step ms now db n) (h, t)
    | inr (run, n) ↦ elim (Result-cases (write_step q k step ms now db)) [
      | inl (d, w) ↦
          let (s, m, a, b, e) = write_step-inv q k step ms now db d w in
          rw (commit_step-some q k step ms now db run n, w, sym e)
            (
              update-there k (count_step step now) db.runs h,
              rw (laws.steps.rows_add k run_id (step_row step) db.steps s a)
                  (elim (Bool-cases (k == run_id)) [
                    | inl b ↦ rw b (has_index-place_more (λ r. r.idx) (step_row step) idx _ t)
                    | inr b ↦ rw b t
                  ]),
            )
      | inr (x, w) ↦ rw (commit_step-some q k step ms now db run n, w) (h, t)
    ]
  ]

  finish-IsTaken :
      (k : ℕ) (outcome : RunOutcome) (now : ℕ) (db : Stored R S M)
      → IsTaken q run_id idx db
      → IsTaken q run_id idx (finish q k outcome now db).1
  unfolding finish
  finish-IsTaken k outcome now db (h, t) = elim (Option-cases (q.runs.select k db.runs)) [
    | inl n ↦ rw (n, finish) (h, t)
    | inr (run, n) ↦ rw (n, finish) (update-there k (close_row outcome now) db.runs h, t)
  ]

  record_retry-IsTaken :
      (k : ℕ) (db : Stored R S M)
      → IsTaken q run_id idx db
      → IsTaken q run_id idx (record_retry q k db).1
  unfolding record_retry
  record_retry-IsTaken k db h =
      let f : RunRow → RunRow = λ run. record run { retries_used = run.retries_used + 1 } in
      let m = update_run-IsTaken k (λ run. true) f db h in
      elim (Option-cases (update_where q.runs k (λ run. true) f db.runs).0) [
        | inl e ↦ rw (e, record_retry) m
        | inr (r, e) ↦ rw (e, record_retry) m
      ]

  claim-IsTaken :
      (k : ℕ) (owner : String) (ttl now : ℕ) (db : Stored R S M)
      → IsTaken q run_id idx db
      → IsTaken q run_id idx (claim q k owner ttl now db).1
  unfolding claim
  claim-IsTaken k owner ttl now db h =
      let test : RunRow → Bool = λ run. is_open run.status && is_free run now in
      let m = update_run-IsTaken k test (lease_row owner ttl now) db h in
      elim (Option-cases (update_where q.runs k test (lease_row owner ttl now) db.runs).0) [
        | inl e ↦ rw (e, claim) m
        | inr (r, e) ↦ rw (e, claim) m
      ]

  claim_next_reclaimable-IsTaken :
      (locked : ℕ → Bool) (owner : String) (ttl now : ℕ) (db : Stored R S M)
      → IsTaken q run_id idx db
      → IsTaken q run_id idx (claim_next_reclaimable q locked owner ttl now db).1
  unfolding claim_next_reclaimable
  claim_next_reclaimable-IsTaken locked owner ttl now db (h, t) =
      elim (Option-cases (q.runs.first (is_candidate locked now) (λ run. run.created_at) db.runs)) [
        | inl e ↦ rw (e, claim_next_reclaimable) (h, t)
        | inr ((id, run), e) ↦
            rw (e, claim_next_reclaimable) (update-there id (lease_row owner ttl now) db.runs h, t)
      ]

  renew-IsTaken :
      (k : ℕ) (owner : String) (ttl now : ℕ) (db : Stored R S M)
      → IsTaken q run_id idx db
      → IsTaken q run_id idx (renew q k owner ttl now db).1
  unfolding renew
  renew-IsTaken k owner ttl now db h =
      let test : RunRow → Bool = λ run. row_owned_by run owner && row_is_live run now in
      let f : RunRow → RunRow = λ run. record run { lease_expires_at = some (now + seconds ttl) } in
      let m = update_run-IsTaken k test f db h in
      elim (Option-cases (update_where q.runs k test f db.runs).0) [
        | inl e ↦ rw (e, renew) m
        | inr (r, e) ↦ rw (e, renew) m
      ]

  release-IsTaken :
      (k : ℕ) (owner : String) (status : RunStatus) (db : Stored R S M)
      → IsTaken q run_id idx db
      → IsTaken q run_id idx (release q k owner status db).1
  unfolding release
  release-IsTaken k owner status db h = update_run-IsTaken k (λ run. row_owned_by run owner) _ db h

  Transaction-IsTaken :
      {d e : Stored R S M} → Transaction q d e → IsTaken q run_id idx d → IsTaken q run_id idx e
  Transaction-IsTaken {d} (creates spec id now) h = create-IsTaken spec id now d h
  Transaction-IsTaken {d} (commits k step ms now) h = commit_step-IsTaken k step ms now d h
  Transaction-IsTaken {d} (finishes k outcome now) h = finish-IsTaken k outcome now d h
  Transaction-IsTaken {d} (retries k) h = record_retry-IsTaken k d h
  Transaction-IsTaken {d} (claims k owner ttl now) h = claim-IsTaken k owner ttl now d h
  Transaction-IsTaken {d} (reclaims locked owner ttl now) h =
      claim_next_reclaimable-IsTaken locked owner ttl now d h
  Transaction-IsTaken {d} (renews k owner ttl now) h = renew-IsTaken k owner ttl now d h
  Transaction-IsTaken {d} (releases k owner status) h = release-IsTaken k owner status d h

  -- No transaction takes a step away again.
  pub Transactions-IsTaken :
      {d e : Stored R S M} → IsTaken q run_id idx d → Transactions q d e → IsTaken q run_id idx e
  Transactions-IsTaken h nothing = h
  Transactions-IsTaken h (and_then ts t) = Transaction-IsTaken t (Transactions-IsTaken h ts)
