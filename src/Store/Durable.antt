-- ===== src/Store/Durable.antt =====
-- The store of app/adapters/db/memory.py holds the history of a run as the loop relies on.
use agent_force.Prelude.{
  ℕ, ◌+◌, ◌≡◌, refl, sym, ap, subst, ◌∙◌, true, false, not, ◌&&◌, ◌||◌, String, none, some, List,
  [], ◌∷◌, length, nat_Eq, string_Eq, All, arith, Bool-cases, inl, inr,
}
use agent_force.Prelude.Dict.{get, get-put_self}
use agent_force.Effects.{ok}
use agent_force.Effects.Prog.{call}
use agent_force.Effects.Ensures.{Ensures}
use agent_force.Messages.{Message}
use agent_force.Messages.RoundTrip.{IsReplayable}
use agent_force.State.{paused, RunRecord, RunOutcome, StepRecord, is_terminal}
use agent_force.World.{World}
use agent_force.Store.Port.{store_port}
use agent_force.Store.Records.{StoredRun, save}
use agent_force.Store.Memory.{
  finish, record_retry, is_committed, append_step, is_held, owned_by, take_lease,
}
use agent_force.Store.Leases.{
  claim-some, renew-some, release-stranger, release-owner, stored_at-some,
}
use agent_force.Store.Commits.{commit_step-some, rehydrate-same}
use agent_force.Loop.Sound.{AreNumbered}
use agent_force.Loop.History.{History, history_of, with_step, Committed, StoresRun}

-- The next number is not that of a step.
not_committed :
    (n idx : ℕ) (steps : List StepRecord)
    → AreNumbered n steps
    → idx ≡ n + length steps
    → is_committed idx steps ≡ false
unfolding is_committed
not_committed n idx [] h e = refl
not_committed n idx (step ∷ steps) h e =
    ground (arith, not_committed (n + 1) idx steps h.1 (omega arith))

module _ {E : Type 0} (run_id : ℕ) where
  -- The run is there, and has not ended.
  abbrev pub MemoryHolds : History → World E → Type 0
  MemoryHolds h w =
      (stored : StoredRun) × (get w.store.runs run_id ≡ some stored)
      × (is_terminal stored.run.status ≡ false)
      × (history_of stored.run ≡ h)

  -- The run has ended with the outcome, and nobody has it.
  abbrev pub MemoryClosed : RunOutcome → History → World E → Type 0
  MemoryClosed o h w =
      (stored : StoredRun) × (get w.store.runs run_id ≡ some stored)
      × (is_terminal stored.run.status ≡ true)
      × (history_of stored.run ≡ h)
      × (stored.run.status ≡ o.status)
      × (stored.run.answer ≡ o.answer)
      × (stored.run.error_code ≡ o.error_code)
      × (stored.run.error_message ≡ o.error_message)
      × (stored.owner ≡ none)

  -- No other worker has a live lease.
  abbrev pub MemoryFree : String → World E → Type 0
  MemoryFree owner w =
      (stored : StoredRun) × (get w.store.runs run_id ≡ some stored)
      × ((is_held stored w.now && not (owned_by stored owner)) ≡ false)

  -- A run that has been saved with the history that it had.
  saved-Holds :
      (h : History) (w : World E) (stored : StoredRun)
      → is_terminal stored.run.status ≡ false
      → history_of stored.run ≡ h
      → MemoryHolds h (record w { store = save w.store run_id stored })
  saved-Holds h w stored t e = (stored, get-put_self w.store.runs run_id stored, t, e)

  module _ (owner : String) (ttl : ℕ) where
    memory-claims :
        (h : History) (w u : World E) (r : RunRecord)
        → MemoryHolds h w
        → store_port.claim run_id owner ttl w ≡ (ok (some r), u)
        → (history_of r ≡ h) × MemoryHolds h u
    unfolding take_lease is_terminal
    memory-claims h w u r (stored, there, live, e) c =
        elim (Bool-cases (
          is_terminal stored.run.status || (is_held stored w.now && not (owned_by stored owner)))) [
            | inl t ↦ absurd (
                let b = rw (claim-some run_id owner ttl w.now w.store stored there, t) at c in
                ground arith)
            | inr f ↦
                let b = rw (claim-some run_id owner ttl w.now w.store stored there, f) at c in
                let same : (take_lease stored owner ttl w.now).run ≡ r = ground arith in
                (
                  sym (ap history_of same) ∙ e,
                  rw (sym (ap (λ p. p.1) b)) (saved-Holds h w _ refl e),
                )
          ]

    memory-renews :
        (h : History) (w : World E)
        → MemoryHolds h w
        → MemoryHolds h (store_port.renew run_id owner ttl w).1
    memory-renews h w (stored, there, live, e) =
        elim (Bool-cases (owned_by stored owner && is_held stored w.now)) [
          | inl t ↦
              rw (renew-some run_id owner ttl w.now w.store stored there, t)
                (saved-Holds h w _ live e)
          | inr f ↦
              rw (renew-some run_id owner ttl w.now w.store stored there, f)
                (stored, there, live, e)
        ]

    memory-releases :
        (h : History) (w : World E)
        → MemoryHolds h w
        → MemoryHolds h (store_port.release run_id owner paused w).1
    unfolding is_terminal
    memory-releases h w (stored, there, live, e) = elim (Bool-cases (owned_by stored owner)) [
      | inl t ↦
          rw (release-owner run_id owner paused w.store stored there t) (saved-Holds h w _ refl e)
      | inr f ↦
          rw (release-stranger run_id owner paused w.store stored there f) (stored, there, live, e)
    ]

  memory-commits :
      (h : History) (step : StepRecord) (ms : List Message) (w : World E)
      → MemoryHolds h w
      → AreNumbered 0 h.steps
      → step.idx ≡ length h.steps
      → All (λ m. All IsReplayable m.content) ms
      → Committed MemoryHolds h (with_step h step step ms) (store_port.commit_step run_id step ms w)
  unfolding append_step is_terminal
  memory-commits h step ms w (stored, there, live, e) numbered next all =
      let fresh : is_committed step.idx stored.run.steps ≡ false =
        ap (λ x. is_committed step.idx x.steps) e
        ∙ not_committed 0 step.idx h.steps numbered (omega arith) in
      rw (commit_step-some run_id step ms w.store stored there, fresh, rehydrate-same ms all)
        (saved-Holds (with_step h step step ms) w
          (record stored { run = append_step stored.run step ms }) refl
          (ap (λ x. with_step x step step ms) e))

  memory-retries :
      (h : History) (w : World E)
      → MemoryHolds h w
      → MemoryHolds h (store_port.record_retry run_id w).1
  unfolding record_retry
  memory-retries h w (stored, there, live, e) =
      rw (stored_at-some w.store run_id stored there) (saved-Holds h w _ live e)

  memory-finishes :
      (h : History) (o : RunOutcome) (w : World E)
      → MemoryHolds h w
      → is_terminal o.status ≡ true
      → Ensures (λ _. MemoryClosed o h) (MemoryHolds h) (call (store_port.finish run_id o) w)
  unfolding finish
  memory-finishes h o w (stored, there, live, e) ends =
      rw (stored_at-some w.store run_id stored there)
        (_, get-put_self w.store.runs run_id _, ends, e, refl, refl, refl, refl, refl)

  module _ (owner : String) (ttl : ℕ) where
    memory-refuses :
        (o : RunOutcome) (h : History) (w u : World E) (r : RunRecord)
        → MemoryClosed o h w
        → store_port.claim run_id owner ttl w ≡ (ok (some r), u)
        → ⊥
    memory-refuses o h w u r closed c =
        let b = rw (claim-some run_id owner ttl w.now w.store closed.0 closed.1, closed.2) at c in
        ground arith

    -- An open run is lent to a worker where no other one has a live lease.
    pub memory-lends :
        (h : History) (w : World E)
        → MemoryHolds h w
        → MemoryFree owner w
        → (r : RunRecord) × (u : World E) × (store_port.claim run_id owner ttl w ≡ (ok (some r), u))
    memory-lends h w (stored, there, live, e) (again, there', free) =
        let same : again ≡ stored = ground arith in
        let free' : (is_held stored w.now && not (owned_by stored owner)) ≡ false =
          subst (λ x. (is_held x w.now && not (owned_by x owner)) ≡ false) same free in
        let taken = take_lease stored owner ttl w.now in
        (
          taken.run,
          record w { store = save w.store run_id taken },
          rw (claim-some run_id owner ttl w.now w.store stored there, live, free') refl,
        )

  -- The store in memory, seen by the loop, holds the history of a run: each operation that the loop calls
  -- does to it what the loop relies on, and keeps a step as it was given.
  pub memory-StoresRun :
      (owner : String) (ttl : ℕ)
      → StoresRun (store_port {E = E}) run_id owner ttl (λ step. step) MemoryHolds MemoryClosed
  memory-StoresRun owner ttl = record {
    kept_idx = λ step. refl;
    kept_again = λ step. refl;
    claims = memory-claims owner ttl;
    commits = λ h step ms w holds numbered counted. memory-commits h step ms w holds numbered;
    retries = memory-retries;
    renews = memory-renews owner ttl;
    releases = memory-releases owner ttl;
    finishes = memory-finishes;
    refuses = memory-refuses owner ttl;
  }
