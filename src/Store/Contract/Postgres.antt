-- ===== src/Store/Contract/Postgres.antt =====
-- The PostgreSQL store keeps the contract on leases.
use agent_force.Prelude.{
  ℕ, ◌+◌, ◌≡◌, refl, ap, subst, ◌∙◌, Bool, true, false, ◌&&◌, String, Option, none, some, nat_Eq,
  ◌==◌, arith, Option-cases, Bool-cases, inl, inr, str_eq, str_eq_iff, nat_eq_iff, ltb, ltb→lt, ◌<◌,
}
use agent_force.State.{RunStatus, RunOutcome}
use agent_force.Store.Records.{seconds}
use agent_force.Store.Contract.{
  Lease, lease_of, IsFree, Moves, keeps, takes, extends, gives_up, LeaseStore, IsLeaseStore,
}
use agent_force.Store.Postgres.Models.{RunRow, Schema, Stored, IsSchema}
use agent_force.Store.Postgres.Runs.{update_where, update_run, finish, close_row}
use agent_force.Store.Postgres.Updates.{select-update_where}
use agent_force.Store.Postgres.Leases.{
  is_open, is_free, lease_row, row_owned_by, row_is_live, is_candidate, claim, renew, release,
  claim_next_reclaimable,
}

abbrev pub row_lease : Option RunRow → Lease
row_lease none = none
row_lease (some run) = lease_of run.lease_owner run.lease_expires_at

module _ {R S M : Type 0} (q : Schema R S M) where
  abbrev pub lease_at : ℕ → Stored R S M → Lease
  lease_at run_id db = row_lease (q.runs.select run_id db.runs)

  abbrev pub lease_store : LeaseStore (Stored R S M)
  lease_store = record {
    lease = lease_at;
    claim = λ run_id owner ttl now db. (claim q run_id owner ttl now db).1;
    claim_next = λ skipped owner ttl now db. (claim_next_reclaimable q skipped owner ttl now db).1;
    renew = λ run_id owner ttl now db. (renew q run_id owner ttl now db).1;
    release = λ run_id owner status db. (release q run_id owner status db).1;
    finish = λ run_id outcome now db. (finish q run_id outcome now db).1;
  }

is_free-IsFree :
    (owner : Option String) (until : Option ℕ) (run : RunRow) (now : ℕ)
    → run.lease_owner ≡ owner
    → run.lease_expires_at ≡ until
    → is_free run now ≡ true
    → IsFree now (lease_of owner until)
unfolding is_free
is_free-IsFree none until run now o e h = tt
is_free-IsFree (some a) none run now o e h = tt
is_free-IsFree (some a) (some u) run now o e h =
    let b : ltb u now ≡ true = rw (o, e, is_free) at h in ground arith

free-meets :
    (locked : ℕ → Bool) (now id : ℕ) (run : RunRow)
    → is_candidate locked now id run ≡ true
    → is_free run now ≡ true
unfolding is_candidate
free-meets locked now id run h = ground arith

pub owner-row_owned_by :
    (run : RunRow) (owner : String) → row_owned_by run owner ≡ true → run.lease_owner ≡ some owner
unfolding row_owned_by
owner-row_owned_by run owner h = elim (Option-cases run.lease_owner) [
  | inl e ↦ let b : false ≡ true = rw (e, row_owned_by) at h in absurd (ground arith)
  | inr (a, e) ↦
      let b : str_eq a owner ≡ true = rw (e, row_owned_by) at h in
      e ∙ ap some ((str_eq_iff a owner).0 b)
]

pub until-row_is_live :
    (run : RunRow) (now : ℕ)
    → row_is_live run now ≡ true
    → (until : ℕ) × (run.lease_expires_at ≡ some until) × (now < until)
unfolding row_is_live
until-row_is_live run now h = elim (Option-cases run.lease_expires_at) [
  | inl e ↦ let b : false ≡ true = rw (e, row_is_live) at h in absurd (ground arith)
  | inr (u, e) ↦ let b : ltb now u ≡ true = rw (e, row_is_live) at h in (u, e, ltb→lt now u b)
]

renewed-Moves :
    (run : RunRow) (owner : String) (now until : ℕ)
    → (row_owned_by run owner && row_is_live run now) ≡ true
    → Moves now owner
        (lease_of run.lease_owner run.lease_expires_at)
        (lease_of run.lease_owner (some until))
renewed-Moves run owner now until h =
    let o = owner-row_owned_by run owner (ground arith) in
    let (u, e, live) = until-row_is_live run now (ground arith) in rw (o, e) (extends u until live)

released-Moves :
    (run : RunRow) (owner : String) (now : ℕ)
    → row_owned_by run owner ≡ true
    → Moves now owner (lease_of run.lease_owner run.lease_expires_at) none
released-Moves run owner now h =
    rw (owner-row_owned_by run owner h) (elim (Option-cases run.lease_expires_at) [
      | inl e ↦ rw e (keeps none)
      | inr (u, e) ↦ rw e (gives_up u)
    ])

module _ {R S M : Type 0} (q : Schema R S M) (laws : IsSchema q) where
  -- An UPDATE moves the leases if it moves that of each row that it rewrites.
  update_run-Moves :
      (run_id j now : ℕ) (who : String) (test : RunRow → Bool) (f : RunRow → RunRow)
      (db : Stored R S M)
      → ((r : RunRow) → test r ≡ true → Moves now who (row_lease (some r)) (row_lease (some (f r))))
      → Moves now who (lease_at q j db) (lease_at q j (update_run q run_id test f db).1)
  update_run-Moves run_id j now who test f db m =
      rw (select-update_where q.runs laws.runs run_id j test f db.runs)
        (elim (Bool-cases (run_id == j)) [
          | inl b ↦ rw b (elim (Option-cases (q.runs.select j db.runs)) [
            | inl n ↦ rw n (keeps none)
            | inr (r, n) ↦
                rw n (elim (Bool-cases (test r)) [ inl y ↦ rw y (m r y) | inr y ↦ rw y (keeps _) ])
          ])
          | inr b ↦ rw b (keeps _)
        ])

  update-Moves :
      (run_id j now : ℕ) (who : String) (f : RunRow → RunRow) (db : Stored R S M) (r : RunRow)
      → q.runs.select run_id db.runs ≡ some r
      → Moves now who (row_lease (some r)) (row_lease (some (f r)))
      → Moves now who
          (lease_at q j db)
          (row_lease (q.runs.select j (q.runs.update run_id f db.runs)))
  update-Moves run_id j now who f db r h m =
      rw (laws.runs.select_update run_id j f db.runs) (elim (Bool-cases (run_id == j)) [
        | inl b ↦
            let n : q.runs.select j db.runs ≡ some r =
              subst (λ i. q.runs.select i db.runs ≡ some r) ((nat_eq_iff run_id j).0 b) h in
            rw (b, n) m
        | inr b ↦ rw b (keeps _)
      ])

  claim-Moves :
      (run_id : ℕ) (owner : String) (ttl now j : ℕ) (db : Stored R S M)
      → Moves now owner (lease_at q j db) (lease_at q j (claim q run_id owner ttl now db).1)
  unfolding claim lease_row
  claim-Moves run_id owner ttl now j db =
      let test : RunRow → Bool = λ run. is_open run.status && is_free run now in
      let m = update_run-Moves run_id j now owner test (lease_row owner ttl now) db (λ r h.
        takes _ _
          (is_free-IsFree r.lease_owner r.lease_expires_at r now refl refl (ground arith))) in
      elim (Option-cases (update_where q.runs run_id test (lease_row owner ttl now) db.runs).0) [
        | inl e ↦ rw (e, claim) m
        | inr (r, e) ↦ rw (e, claim) m
      ]

  renew-Moves :
      (run_id : ℕ) (owner : String) (ttl now j : ℕ) (db : Stored R S M)
      → Moves now owner (lease_at q j db) (lease_at q j (renew q run_id owner ttl now db).1)
  unfolding renew
  renew-Moves run_id owner ttl now j db =
      let test : RunRow → Bool = λ run. row_owned_by run owner && row_is_live run now in
      let f : RunRow → RunRow = λ run. record run { lease_expires_at = some (now + seconds ttl) } in
      let m =
        update_run-Moves run_id j now owner test f db (λ r h. renewed-Moves r owner now _ h) in
      elim (Option-cases (update_where q.runs run_id test f db.runs).0) [
        | inl e ↦ rw (e, renew) m
        | inr (r, e) ↦ rw (e, renew) m
      ]

  release-Moves :
      (run_id : ℕ) (owner : String) (status : RunStatus) (now j : ℕ) (db : Stored R S M)
      → Moves now owner (lease_at q j db) (lease_at q j (release q run_id owner status db).1)
  unfolding release
  release-Moves run_id owner status now j db =
      update_run-Moves run_id j now owner (λ run. row_owned_by run owner) _ db
        (λ r h. released-Moves r owner now h)

  claim_next_reclaimable-Moves :
      (skipped : ℕ → Bool) (owner : String) (ttl now j : ℕ) (db : Stored R S M)
      → Moves now owner
          (lease_at q j db)
          (lease_at q j (claim_next_reclaimable q skipped owner ttl now db).1)
  unfolding claim_next_reclaimable lease_row
  claim_next_reclaimable-Moves skipped owner ttl now j db =
      elim (Option-cases
        (q.runs.first (is_candidate skipped now) (λ run. run.created_at) db.runs)) [
          | inl e ↦ rw (e, claim_next_reclaimable) (keeps _)
          | inr ((id, run), e) ↦
              let found =
                laws.runs.first_some (is_candidate skipped now) (λ run. run.created_at) id run
                  db.runs e in
              let there : q.runs.select id db.runs ≡ some run = found.0 in
              let meets : is_candidate skipped now id run ≡ true = found.1 in
              rw (e, claim_next_reclaimable)
                (update-Moves id j now owner (lease_row owner ttl now) db run there (
                  takes _ _ (
                    is_free-IsFree run.lease_owner run.lease_expires_at run now refl refl
                      (free-meets skipped now id run meets))))
        ]

  finish-others :
      (run_id : ℕ) (outcome : RunOutcome) (now j : ℕ) (db : Stored R S M)
      → (run_id == j) ≡ false
      → lease_at q j (finish q run_id outcome now db).1 ≡ lease_at q j db
  unfolding finish
  finish-others run_id outcome now j db n = elim (Option-cases (q.runs.select run_id db.runs)) [
    | inl e ↦ rw (e, finish) refl
    | inr (r, e) ↦
        rw (e, finish, laws.runs.select_update run_id j (close_row outcome now) db.runs, n) refl
  ]

  -- Each of the four operations, as PostgreSQL runs it, moves the leases as the contract of the store
  -- allows: a lease is taken where it is free, extended while it is live or given up by its worker,
  -- or left alone; and `finish` leaves the leases of other runs alone.
  pub postgres-IsLeaseStore : IsLeaseStore (lease_store q)
  postgres-IsLeaseStore = record {
    claims = claim-Moves;
    claims_next = claim_next_reclaimable-Moves;
    renews = renew-Moves;
    releases = release-Moves;
    finishes_others = finish-others;
  }
