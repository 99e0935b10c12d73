-- ===== src/Store/Postgres/Leases.antt =====
-- The leases of `PostgresRunStore`: `claim`, `claim_next_reclaimable`, `renew` and `release`.
use agent_force.Prelude.{
  ℕ, ◌+◌, Bool, true, false, not, ◌&&◌, String, Option, none, some, str_eq, ltb,
}
use agent_force.Effects.{Result, ok, ◌>>=◌}
use agent_force.State.{RunRecord, RunStatus, queued, running, paused}
use agent_force.Store.Records.{seconds}
use agent_force.Store.Postgres.Models.{RunRow, Schema, Stored}
use agent_force.Store.Postgres.Runs.{update_where, update_run, load}

-- `Run.status.in_(...)`
unfoldable pub is_open : RunStatus → Bool
is_open queued = true
is_open running = true
is_open paused = true
is_open _ = false

-- `or_(Run.lease_owner.is_(None), Run.lease_expires_at < func.now())`: NULL is less than nothing.
unfoldable pub is_free : RunRow → ℕ → Bool
is_free run now = elim run.lease_owner [
  | none ↦ true
  | some owner ↦ elim run.lease_expires_at [ none ↦ false | some at ↦ ltb at now ]
]

unfoldable pub lease_row : String → ℕ → ℕ → RunRow → RunRow
lease_row owner ttl now run = record run {
  lease_owner = some owner;
  lease_expires_at = some (now + seconds ttl);
  status = running;
  started_at = elim run.started_at [ none ↦ some now | some at ↦ some at ];
}

-- `Run.lease_owner == owner`
unfoldable pub row_owned_by : RunRow → String → Bool
row_owned_by run owner = elim run.lease_owner [ none ↦ false | some holder ↦ str_eq holder owner ]

-- `Run.lease_expires_at > func.now()`
unfoldable pub row_is_live : RunRow → ℕ → Bool
row_is_live run now = elim run.lease_expires_at [ none ↦ false | some at ↦ ltb now at ]

-- `locked` says which rows another transaction has locked, which SKIP LOCKED passes over.
unfoldable pub is_candidate : (ℕ → Bool) → ℕ → ℕ → RunRow → Bool
unfolding is_open is_free
is_candidate locked now id run = not (locked id) && (is_open run.status && is_free run now)

module _ {R S M : Type 0} (q : Schema R S M) where
  unfoldable pub claim :
      ℕ → String → ℕ → ℕ → Stored R S M → Result (Option RunRecord) × Stored R S M
  unfolding update_where is_open is_free lease_row load
  claim run_id owner ttl now db =
      let (row, db') =
        update_run q run_id (λ run. is_open run.status && is_free run now) (lease_row owner ttl now)
          db in
      elim row [ none ↦ (ok none, db') | some run ↦ (load q run_id db' >>= λ r. ok (some r), db') ]

  unfoldable pub renew : ℕ → String → ℕ → ℕ → Stored R S M → Result Bool × Stored R S M
  unfolding update_where row_owned_by row_is_live
  renew run_id owner ttl now db =
      let (row, db') =
        update_run q run_id (λ run. row_owned_by run owner && row_is_live run now)
          (λ run. record run { lease_expires_at = some (now + seconds ttl) }) db in
      elim row [ none ↦ (ok false, db') | some run ↦ (ok true, db') ]

  unfoldable pub release : ℕ → String → RunStatus → Stored R S M → Result (Unit {0}) × Stored R S M
  unfolding update_where row_owned_by
  release run_id owner status db =
      let (row, db') =
        update_run q run_id (λ run. row_owned_by run owner)
          (λ run. record run { lease_owner = none; lease_expires_at = none; status = status }) db in
      (ok tt, db')

  unfoldable pub claim_next_reclaimable :
      (ℕ → Bool) → String → ℕ → ℕ → Stored R S M → Result (Option RunRecord) × Stored R S M
  unfolding is_candidate lease_row load
  claim_next_reclaimable locked owner ttl now db =
      elim (q.runs.first (is_candidate locked now) (λ run. run.created_at) db.runs) [
        | none ↦ (ok none, db)
        | some (id, run) ↦
            let db' : Stored R S M = record db {
              runs = q.runs.update id (lease_row owner ttl now) db.runs;
            } in
            (load q id db' >>= λ r. ok (some r), db')
      ]
