-- ===== src/Store/Histories.antt =====
-- The invariant of the store, kept by every operation of app/adapters/db/memory.py.
use agent_force.Prelude.{
  ℕ, refl, true, not, ◌&&◌, ◌||◌, String, none, List, nat_Eq, string_Eq, arith, Option-cases,
  Bool-cases, inl, inr, ap, ◌∙◌, sym,
}
use agent_force.Prelude.Dict.{get}
use agent_force.Effects.{Result-cases, ok}
use agent_force.Messages.{Message}
use agent_force.State.{NewRun, StepRecord, RunOutcome, RunStatus, is_terminal}
use agent_force.Store.Memory.{
  create, commit_step, is_committed, rehydrate, finish, record_retry, claim, claim_next_reclaimable,
  first_reclaimable, renew, release, expire_lease, is_held, owned_by,
}
use agent_force.Store.Records.{StoredRun, MemoryStore, save, existing_run, insert_new, new_record}
use agent_force.Store.Creation.{create-existing, create-new}
use agent_force.Store.Steps.{
  Step, Reached, creates, commits, finishes, retries, claims, reclaims, renews, releases, expires,
  started, after,
}
use agent_force.Store.Invariant.{IsValid, save-IsValid}
use agent_force.Store.Keeps.{
  append_step-IsConsistent, find-Keeps, keep_key-runs, save-Keeps, stored_at-Keeps,
  take_lease-IsConsistent,
}

module _ (s : MemoryStore) (v : IsValid s) where
  insert_new-IsValid : (spec : NewRun) (id : ℕ) → IsValid (insert_new spec id s).1
  unfolding insert_new new_record is_terminal
  insert_new-IsValid spec id =
      let stored : StoredRun = record { run = new_record spec id; owner = none; expires = none } in
      let u = save-IsValid s id stored v (record {
        own_id = refl;
        distinct = tt;
        spent = refl;
        same_owner = refl;
        ended_free = λ h. refl;
      }) in
      record {
        at_run = λ run_id found h.
            u.at_run run_id found
              (ap (λ d. get d run_id) (sym (keep_key-runs spec id (save s id stored))) ∙ h);
      }

  create-IsValid : (spec : NewRun) (id : ℕ) → IsValid (create spec id s).1
  create-IsValid spec id = elim (Option-cases (existing_run spec s)) [
    | inl e ↦ rw (create-new spec id s e) (insert_new-IsValid spec id)
    | inr (run_id, e) ↦
        rw (create-existing spec id run_id s e)
          (stored_at-Keeps s run_id (λ stored. ok (stored.run, s)) v
            (λ stored c. record { keeps = v })).keeps
  ]

  commit_step-IsValid :
      (run_id : ℕ) (step : StepRecord) (ms : List Message)
      → IsValid (commit_step run_id step ms s).1
  unfolding commit_step
  commit_step-IsValid run_id step ms =
      (find-Keeps s run_id _ v λ stored c.
        elim (Bool-cases (is_committed step.idx stored.run.steps)) [
          | inl b ↦ rw b (record { keeps = v })
          | inr b ↦ rw b (elim (Result-cases (rehydrate ms)) [
            | inl (replayed, e) ↦ rw e (
                save-Keeps tt s run_id _ v
                  (append_step-IsConsistent run_id stored step replayed c b))
            | inr (x, e) ↦ rw e (record { keeps = v })
          ])
        ]).keeps

  finish-IsValid : (run_id : ℕ) (outcome : RunOutcome) → IsValid (finish run_id outcome s).1
  unfolding finish
  finish-IsValid run_id outcome =
      (stored_at-Keeps s run_id _ v λ stored c. save-Keeps tt s run_id _ v (record {
        own_id = c.own_id;
        distinct = c.distinct;
        spent = c.spent;
        same_owner = refl;
        ended_free = λ h. refl;
      })).keeps

  record_retry-IsValid : (run_id : ℕ) → IsValid (record_retry run_id s).1
  unfolding record_retry
  record_retry-IsValid run_id =
      (stored_at-Keeps s run_id _ v λ stored c. save-Keeps _ s run_id _ v (record {
        own_id = c.own_id;
        distinct = c.distinct;
        spent = c.spent;
        same_owner = c.same_owner;
        ended_free = c.ended_free;
      })).keeps

  expire_lease-IsValid : (run_id now : ℕ) → IsValid (expire_lease run_id now s).1
  unfolding expire_lease
  expire_lease-IsValid run_id now =
      (stored_at-Keeps s run_id _ v λ stored c. save-Keeps tt s run_id _ v (record {
        own_id = c.own_id;
        distinct = c.distinct;
        spent = c.spent;
        same_owner = c.same_owner;
        ended_free = c.ended_free;
      })).keeps

  claim-IsValid :
      (run_id : ℕ) (owner : String) (ttl now : ℕ) → IsValid (claim run_id owner ttl now s).1
  unfolding claim
  claim-IsValid run_id owner ttl now =
      (find-Keeps s run_id _ v λ stored c.
        elim (Bool-cases
          (is_terminal stored.run.status || (is_held stored now && not (owned_by stored owner)))) [
            | inl b ↦ rw b (record { keeps = v })
            | inr b ↦
                rw b (
                  save-Keeps _ s run_id _ v (take_lease-IsConsistent run_id stored owner ttl now c))
          ]).keeps

  renew-IsValid :
      (run_id : ℕ) (owner : String) (ttl now : ℕ) → IsValid (renew run_id owner ttl now s).1
  unfolding renew
  renew-IsValid run_id owner ttl now =
      (stored_at-Keeps s run_id _ v λ stored c.
        elim (Bool-cases (owned_by stored owner && is_held stored now)) [
          | inl b ↦ rw b (
              save-Keeps true s run_id _ v (record {
                own_id = c.own_id;
                distinct = c.distinct;
                spent = c.spent;
                same_owner = c.same_owner;
                ended_free = c.ended_free;
              }))
          | inr b ↦ rw b (record { keeps = v })
        ]).keeps

  release-IsValid :
      (run_id : ℕ) (owner : String) (status : RunStatus) → IsValid (release run_id owner status s).1
  unfolding release
  release-IsValid run_id owner status =
      (stored_at-Keeps s run_id _ v λ stored c. elim (Bool-cases (owned_by stored owner)) [
        | inl b ↦ rw b (
            save-Keeps tt s run_id _ v (record {
              own_id = c.own_id;
              distinct = c.distinct;
              spent = c.spent;
              same_owner = refl;
              ended_free = λ h. refl;
            }))
        | inr b ↦ rw b (record { keeps = v })
      ]).keeps

  claim_next_reclaimable-IsValid :
      (owner : String) (ttl now : ℕ) → IsValid (claim_next_reclaimable owner ttl now s).1
  unfolding claim_next_reclaimable
  claim_next_reclaimable-IsValid owner ttl now =
      elim (Option-cases (first_reclaimable now s.runs)) [
        | inl e ↦ rw (e, claim_next_reclaimable) v
        | inr (run_id, e) ↦ rw (e, claim_next_reclaimable) (claim-IsValid run_id owner ttl now)
      ]

Step-IsValid : {s t : MemoryStore} → Step s t → IsValid s → IsValid t
Step-IsValid {s} (creates spec id) v = create-IsValid s v spec id
Step-IsValid {s} (commits run_id step ms) v = commit_step-IsValid s v run_id step ms
Step-IsValid {s} (finishes run_id outcome) v = finish-IsValid s v run_id outcome
Step-IsValid {s} (retries run_id) v = record_retry-IsValid s v run_id
Step-IsValid {s} (claims run_id owner ttl now) v = claim-IsValid s v run_id owner ttl now
Step-IsValid {s} (reclaims owner ttl now) v = claim_next_reclaimable-IsValid s v owner ttl now
Step-IsValid {s} (renews run_id owner ttl now) v = renew-IsValid s v run_id owner ttl now
Step-IsValid {s} (releases run_id owner status) v = release-IsValid s v run_id owner status
Step-IsValid {s} (expires run_id now) v = expire_lease-IsValid s v run_id now

-- After any history of operations, by any workers in any order, each run of the store is under its
-- own id, has no two steps with one index, has used exactly the tokens of its steps, names in its
-- record the owner of its lease, and has none once it has ended.
pub Reached-IsValid : (s : MemoryStore) → Reached s → IsValid s
unfolding get
Reached-IsValid s started = record { at_run = λ run_id stored h. absurd (ground arith) }
Reached-IsValid t (after {s} h step) = Step-IsValid step (Reached-IsValid s h)
