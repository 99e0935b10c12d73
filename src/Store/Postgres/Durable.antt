-- ===== src/Store/Postgres/Durable.antt =====
-- The store of app/adapters/db/run_store.py holds the history of a run as the loop relies on.
use agent_force.Prelude.{
  ℕ, ◌+◌, ◌≡◌, refl, sym, ap, subst, ◌∙◌, Bool, true, false, ◌&&◌, String, none, some, List, [],
  ◌∷◌, ◌++◌, length, nat_Eq, All, arith, Bool-cases, Option-cases, inl, inr,
}
use agent_force.Effects.{ok, ok-injective, bind-ok, ◌>>=◌}
use agent_force.Effects.Prog.{call}
use agent_force.Effects.Ensures.{Ensures}
use agent_force.Messages.{Message}
use agent_force.Messages.RoundTrip.{IsReplayable}
use agent_force.State.{
  RunStatus, queued, running, paused, completed, failed, is_terminal, RunRecord, RunOutcome,
  StepRecord, next_step_idx, plus,
}
use agent_force.Store.Records.{seconds}
use agent_force.Store.Postgres.Models.{RunRow, Schema, Stored, IsSchema}
use agent_force.Store.Postgres.Records.{record_of}
use agent_force.Store.Postgres.Runs.{load, commit_step, record_retry, update_run, started}
use agent_force.Store.Postgres.Leases.{
  claim, renew, release, lease_row, is_open, is_free, row_owned_by, row_is_live,
}
use agent_force.Store.Postgres.Reads.{without_creation}
use agent_force.Store.Postgres.Commits.{IsDense, load-inv, commit_step-replays}
use agent_force.Store.Postgres.Outcomes.{load-update, finish-closes, lent, claim-lends}
use agent_force.Store.Postgres.Updates.{update_where-some}
use agent_force.Store.Postgres.Port.{PostgresWorld, store_port}
use agent_force.Loop.History.{History, history_of, with_step, StoresRun}

-- An UPDATE that changes nothing of what a run resumes from.
abbrev LeavesHistory : (RunRow → RunRow) → Type 0
LeavesHistory f =
    (id : ℕ) (row : RunRow) (ms : List Message) (ss : List StepRecord)
    → history_of (record_of id (f row) ms ss) ≡ history_of (record_of id row ms ss)

-- It leaves an open run open.
abbrev LeavesOpen : (RunRow → RunRow) → Type 0
LeavesOpen f = (row : RunRow) → is_open row.status ≡ true → is_open (f row).status ≡ true

started-open : (status : RunStatus) → is_open status ≡ true → is_open (started status) ≡ true
unfolding is_open
started-open queued h = refl
started-open running h = refl
started-open paused h = refl
started-open completed h = absurd (ground arith)
started-open failed h = absurd (ground arith)

terminal_closed : (status : RunStatus) → is_terminal status ≡ true → is_open status ≡ false
unfolding is_open is_terminal
terminal_closed queued h = absurd (ground arith)
terminal_closed running h = absurd (ground arith)
terminal_closed paused h = absurd (ground arith)
terminal_closed completed h = refl
terminal_closed failed h = refl

module _ {R S M : Type 0} (q : Schema R S M) (run_id : ℕ) where
  -- The run loads, and has not ended.
  abbrev pub DatabaseHolds : History → Stored R S M → Type 0
  DatabaseHolds h db =
      (r : RunRecord) × (load q run_id db ≡ ok r)
      × (is_open r.status ≡ true)
      × (history_of r ≡ h)
      × IsDense q run_id db

  abbrev pub PostgresHolds : {E : Type 0} → History → PostgresWorld R S M E → Type 0
  PostgresHolds h w = DatabaseHolds h w.db

  -- The run has ended with the outcome, and loads so, without a lease.
  abbrev pub PostgresClosed : {E : Type 0} → RunOutcome → History → PostgresWorld R S M E → Type 0
  PostgresClosed o h w =
      (r : RunRecord) × (load q run_id w.db ≡ ok r)
      × (is_open r.status ≡ false)
      × (history_of r ≡ h)
      × (r.status ≡ o.status)
      × (r.answer ≡ o.answer)
      × (r.error_code ≡ o.error_code)
      × (r.error_message ≡ o.error_message)
      × (r.lease_owner ≡ none)

  -- Nobody has a live lease.
  abbrev pub PostgresFree : {E : Type 0} → PostgresWorld R S M E → Type 0
  PostgresFree w =
      (row : RunRow) × (q.runs.select run_id w.db.runs ≡ some row) × (is_free row w.now ≡ true)

  module _ (laws : IsSchema q) where
    update-Holds :
        (test : RunRow → Bool) (f : RunRow → RunRow) (h : History) (db : Stored R S M)
        → LeavesHistory f
        → LeavesOpen f
        → DatabaseHolds h db
        → DatabaseHolds h (update_run q run_id test f db).1
    update-Holds test f h db same stays (r, loads, live, e, dense) =
        let (run, ms, ss, there, m, s, whole) = load-inv q run_id db r loads in
        elim (Bool-cases (test run)) [
          | inl t ↦
              rw (update_where-some q.runs laws.runs run_id test f db.runs run there, t)
                (
                  record_of run_id (f run) ms ss,
                  load-update q laws run_id f db run ms ss there m s,
                  stays run (ap (λ x. is_open x.status) whole ∙ live),
                  same run_id run ms ss ∙ ap history_of whole ∙ e,
                  record { steps = dense.steps; messages = dense.messages },
                )
          | inr n ↦
              rw (update_where-some q.runs laws.runs run_id test f db.runs run there, n)
                (r, loads, live, e, dense)
        ]

    record_retry-Holds :
        (h : History) (db : Stored R S M)
        → DatabaseHolds h db
        → DatabaseHolds h (record_retry q run_id db).1
    unfolding record_retry
    record_retry-Holds h db holds =
        let kept =
          update-Holds (λ run. true) (λ run. record run { retries_used = run.retries_used + 1 }) h
            db (λ id row ms ss. refl) (λ row o. o) holds in
        elim (Option-cases
          (update_run q run_id (λ run. true)
            (λ run. record run { retries_used = run.retries_used + 1 }) db).0) [
              | inl e ↦ rw (e, record_retry) kept
              | inr (run, e) ↦ rw (e, record_retry) kept
            ]

    renew-Holds :
        (owner : String) (ttl now : ℕ) (h : History) (db : Stored R S M)
        → DatabaseHolds h db
        → DatabaseHolds h (renew q run_id owner ttl now db).1
    unfolding renew
    renew-Holds owner ttl now h db holds =
        let test = λ (run : RunRow). row_owned_by run owner && row_is_live run now in
        let f = λ (run : RunRow). record run { lease_expires_at = some (now + seconds ttl) } in
        let kept = update-Holds test f h db (λ id row ms ss. refl) (λ row o. o) holds in
        elim (Option-cases (update_run q run_id test f db).0) [
          | inl e ↦ rw (e, renew) kept
          | inr (run, e) ↦ rw (e, renew) kept
        ]

    release-Holds :
        (owner : String) (h : History) (db : Stored R S M)
        → DatabaseHolds h db
        → DatabaseHolds h (release q run_id owner paused db).1
    unfolding release is_open
    release-Holds owner h db holds =
        update-Holds (λ run. row_owned_by run owner)
          (λ run. record run { lease_owner = none; lease_expires_at = none; status = paused }) h db
          (λ id row ms ss. refl) (λ row o. refl) holds

    claim-Holds :
        (owner : String) (ttl now : ℕ) (h : History) (db : Stored R S M) (r : RunRecord)
        → DatabaseHolds h db
        → (claim q run_id owner ttl now db).0 ≡ ok (some r)
        → (history_of r ≡ h) × DatabaseHolds h (claim q run_id owner ttl now db).1
    unfolding claim lease_row is_open
    claim-Holds owner ttl now h db r holds c =
        let test = λ (run : RunRow). is_open run.status && is_free run now in
        let kept =
          update-Holds test (lease_row owner ttl now) h db (λ id row ms ss. refl) (λ row o. refl)
            holds in
        let db' = (update_run q run_id test (lease_row owner ttl now) db).1 in
        elim (Option-cases (update_run q run_id test (lease_row owner ttl now) db).0) [
          | inl e ↦ absurd (let b = rw (e, claim) at c in ground arith)
          | inr (run, e) ↦
              let b : (load q run_id db' >>= λ x. ok (some x)) ≡ ok (some r) = rw (e, claim) at c in
              let (x, loads, same) = bind-ok (load q run_id db') _ (some r) b in
              let x_is : x ≡ r = ground arith in
              rw (e, claim)
                (ap history_of (sym x_is ∙ ok-injective (sym loads ∙ kept.1)) ∙ kept.3, kept)
        ]

    commit_step-Holds :
        (step : StepRecord) (ms : List Message) (now : ℕ) (h : History) (db : Stored R S M)
        → DatabaseHolds h db
        → h.usage.steps ≡ length h.steps
        → step.idx ≡ length h.steps
        → All (λ m. All IsReplayable m.content) ms
        → ((commit_step q run_id step ms now db).0 ≡ ok tt)
          × DatabaseHolds
              (with_step h step (without_creation step) ms)
              (commit_step q run_id step ms now db).1
    unfolding next_step_idx plus
    commit_step-Holds step ms now h db (r, loads, live, e, dense) counted next all =
        let numbered = λ (n : ℕ) (x : History). record x {
          messages = x.messages ++ ms;
          steps = x.steps ++ without_creation step ∷ [];
          usage = record {
            steps = n + 1;
            input_tokens = x.usage.input_tokens + step.usage.input_tokens;
            output_tokens = x.usage.output_tokens + step.usage.output_tokens;
            cache_read_tokens = x.usage.cache_read_tokens + step.usage.cache_read_input_tokens;
          };
        } in
        let idx : step.idx ≡ h.usage.steps = next ∙ sym counted in
        let (answer, loads', dense') =
          commit_step-replays q laws run_id step ms now db r dense loads
            (next ∙ ap (λ x. length x.steps) (sym e)) all in
        (
          answer,
          (
            _,
            loads',
            started-open r.status live,
            ap (numbered step.idx) e ∙ ap (λ n. numbered n h) idx,
            dense',
          ),
        )

    finish-Closed :
        {E : Type 0} (h : History) (outcome : RunOutcome) (w : PostgresWorld R S M E)
        → PostgresHolds h w
        → is_terminal outcome.status ≡ true
        → Ensures
            (λ _. PostgresClosed outcome h)
            (PostgresHolds h)
            (call ((store_port q).finish run_id outcome) w)
    finish-Closed h outcome w (r, loads, live, e, dense) ends =
        let (answer, loads') = finish-closes q laws run_id outcome w.now w.db r loads in
        rw answer (_, loads', terminal_closed outcome.status ends, e, refl, refl, refl, refl, refl)

    claim-closed :
        (owner : String) (ttl now : ℕ) (db : Stored R S M) (r : RunRecord)
        → load q run_id db ≡ ok r
        → is_open r.status ≡ false
        → (claim q run_id owner ttl now db).0 ≡ ok none
    unfolding claim
    claim-closed owner ttl now db r loads ended =
        let (run, ms, ss, there, m, s, whole) = load-inv q run_id db r loads in
        let shut : is_open run.status ≡ false = ap (λ x. is_open x.status) whole ∙ ended in
        let none_updated : (update_run q run_id (λ row. is_open row.status && is_free row now)
              (lease_row owner ttl now) db).0
            ≡ none =
          rw
            (
              update_where-some q.runs laws.runs run_id
                  (λ row. is_open row.status && is_free row now) (lease_row owner ttl now) db.runs
                  run there,
              shut,
            )
            refl in
        rw (none_updated, claim) refl

    postgres-refuses :
        {E : Type 0} (owner : String) (ttl : ℕ) (o : RunOutcome) (h : History)
        (w u : PostgresWorld R S M E) (r : RunRecord)
        → PostgresClosed o h w
        → (store_port q).claim run_id owner ttl w ≡ (ok (some r), u)
        → ⊥
    postgres-refuses owner ttl o h w u r closed c =
        let b : ok none ≡ ok (some r) =
          sym (claim-closed owner ttl w.now w.db closed.0 closed.1 closed.2) ∙ ap (λ p. p.0) c in
        ground arith

    -- An open run is lent to whoever claims it where nobody has a live lease.
    pub postgres-lends :
        {E : Type 0} (owner : String) (ttl : ℕ) (h : History) (w : PostgresWorld R S M E)
        → PostgresHolds h w
        → PostgresFree w
        → (r : RunRecord) × (u : PostgresWorld R S M E) × ((store_port q).claim run_id owner ttl w
            ≡ (ok (some r), u))
    postgres-lends owner ttl h w (r, loads, live, e, dense) (row, there, free) =
        let (run, ms, ss, there', m, s, whole) = load-inv q run_id w.db r loads in
        let same : run ≡ row = ground arith in
        let opened : is_open row.status ≡ true =
          ap (λ x. is_open x.status) (sym same) ∙ (ap (λ x. is_open x.status) whole ∙ live) in
        let lends = claim-lends q laws run_id owner ttl w.now w.db r row loads there opened free in
        (
          lent owner ttl w.now r,
          _,
          ap (λ a. (a, record w { db = (claim q run_id owner ttl w.now w.db).1 })) lends.0,
        )

    -- The store in PostgreSQL, seen by the loop, holds the history of a run: each operation that the loop
    -- calls does to it what the loop relies on, and keeps a step but for the tokens that created the cache.
    pub postgres-StoresRun :
        {E : Type 0} (owner : String) (ttl : ℕ)
        → StoresRun
            (store_port {E = E} q)
            run_id
            owner
            ttl
            without_creation
            PostgresHolds
            PostgresClosed
    postgres-StoresRun {E} owner ttl = record {
      kept_idx = λ step. refl;
      kept_again = λ step. refl;
      claims = λ h w u r holds c.
          let (same, held) = claim-Holds owner ttl w.now h w.db r holds (ap (λ p. p.0) c) in
          (same, subst (λ x. PostgresHolds h x) (ap (λ p. p.1) c) held);
      commits = λ h step ms w holds numbered counted next all.
          let (answer, held) = commit_step-Holds step ms w.now h w.db holds counted next all in
          rw answer held;
      retries = λ h w. record_retry-Holds h w.db;
      renews = λ h w. renew-Holds owner ttl w.now h w.db;
      releases = λ h w. release-Holds owner h w.db;
      finishes = finish-Closed;
      refuses = postgres-refuses owner ttl;
    }
