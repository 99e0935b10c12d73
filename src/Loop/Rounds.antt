-- ===== src/Loop/Rounds.antt =====
-- The rounds of `run` are bounded by the step cap, so a run ends.
use agent_force.Prelude.{
  ℕ, zero, suc, ◌+◌, ◌<◌, ◌≡◌, ◌≢◌, refl, inl, inr, ap, String, Option, none, some, List, [], ◌∷◌,
  ◌++◌, arith, length, is_empty,
}
use agent_force.Errors.{Exc, step_already_committed}
use agent_force.Effects.{Result-cases, ok}
use agent_force.Effects.Prog.{Run, Prog, returns, raises, out_of_fuel, call, try_except}
use agent_force.Effects.Ends.{
  Ends, Ends-then, Ends-lift_then, Ends-bind, Ends-try, Ends-call, Ends-if,
}
use agent_force.Messages.{Message}
use agent_force.State.{RunLimits, RunRecord, RunUsage, plus, StepRecord, RunOutcome, ErrorCode}
use agent_force.Policy.{check}
use agent_force.Loop.Deps.{Deps}
use agent_force.Loop.Attempts.{Attempt}
use agent_force.State
use agent_force.Loop.Drive.{
  fail, pause, swallow, commit, assistant_turn, results_turn, step_of, after_calls, finish_answer,
  continue_calls, respond, stop, after_attempt, request_for, round, drive, start, run,
}
use agent_force.Loop.Turns.{
  LoopState, initial, Stop, fails, pauses, escapes, stop_for, Reading, refused, truncated, answered,
  called, reading, ended,
}
use agent_force.Loop.Termination.{TimePasses}
use agent_force.Loop.Total.{attempt_step-Ends}

-- A step is authorised only below the step cap.
pub check-below_cap :
    (limits : RunLimits) (usage : RunUsage)
    → check limits usage ≡ ok tt
    → usage.steps < limits.max_steps
unfolding check
check-below_cap limits usage h = ground arith

module _ {W : Type 0} (deps : Deps W) (run_id : ℕ) (owner : String) where
  fail-Ends :
      (s : LoopState) (code : ErrorCode) (m : String) (w : W)
      → Ends (fail deps run_id owner s code m w)
  unfolding fail
  fail-Ends s code m w =
      Ends-then (deps.store.finish run_id (ended State.failed s code m)) _ w (λ _ h. cc)

  pause-Ends :
      (s : LoopState) (code : ErrorCode) (m : String) (w : W)
      → Ends (pause deps run_id owner s code m w)
  unfolding pause
  pause-Ends s code m w = Ends-then (deps.store.release run_id owner State.paused) _ w (λ _ h. cc)

  swallow-Ends : (e : Exc) (w : W) → Ends (swallow deps run_id owner e w)
  unfolding swallow
  swallow-Ends (step_already_committed m) w h = cc
  swallow-Ends e w h = cc

  commit-Ends :
      (step : StepRecord) (ms : List Message) (w : W) → Ends (commit deps run_id owner step ms w)
  unfolding commit
  commit-Ends step ms w =
      Ends-bind
        (try_except (call (deps.store.commit_step run_id step ms)) (swallow deps run_id owner)) _ w
        (Ends-try (call (deps.store.commit_step run_id step ms)) (swallow deps run_id owner) w
          (Ends-call (deps.store.commit_step run_id step ms) w) (λ e. swallow-Ends e _))
        λ _.
          Ends-then (deps.store.renew run_id owner deps.lease_ttl) _ _
            λ held. Ends-if held _ _ _ (λ h. cc) (λ h. cc)

  finish_answer-Ends :
      (s : LoopState) (a : Attempt) (w : W) → Ends (finish_answer deps run_id owner s a w)
  unfolding finish_answer
  finish_answer-Ends s a w =
      Ends-bind
        (commit deps run_id owner (step_of deps run_id owner s a [])
          (s.pending ++ assistant_turn deps run_id owner a ∷ []))
        _ w (commit-Ends _ _ w) λ _. Ends-then (deps.store.finish run_id _) _ _ (λ _ h. cc)

  module _ (next : LoopState → Prog W RunOutcome) where
    respond-Ends :
        (s : LoopState) (a : Attempt) (w : W) (how : Reading)
        → reading a.response.stop_reason (is_empty a.records) ≡ how
        → ((s' : LoopState) (u : W) → s'.usage ≡ s.usage → Ends (next s' u))
        → Ends (respond deps run_id owner next s a w)
    unfolding respond
    respond-Ends s a w refused e ends = rw (e, respond) (fail-Ends s _ _ w)
    respond-Ends s a w truncated e ends = rw (e, respond) (fail-Ends s _ _ w)
    respond-Ends s a w answered e ends = rw (e, respond) (finish_answer-Ends s a w)
    respond-Ends s a w called e ends =
        rw (e, respond)
          (unfold continue_calls in
            (Ends-bind
              (commit deps run_id owner (step_of deps run_id owner s a a.records) (
                s.pending
                ++ assistant_turn deps run_id owner a ∷ results_turn deps run_id owner a ∷ []))
              _ w (commit-Ends _ _ w)
              λ _.
                ends (after_calls deps run_id owner s a (step_of deps run_id owner s a a.records)) _
                  refl))

    stop-Ends :
        (s : LoopState) (e : Exc) (w : W) (how : Stop)
        → stop_for e ≡ how
        → Ends (stop deps run_id owner s e w)
    unfolding stop
    stop-Ends s e w (fails code) h = rw (h, stop) (fail-Ends s code _ w)
    stop-Ends s e w (pauses code) h = rw (h, stop) (pause-Ends s code _ w)
    stop-Ends s e w escapes h = rw (h, stop) (λ q. cc)

    after_attempt-Ends :
        (s : LoopState) (r : Run Attempt) (w : W)
        → r ≢ out_of_fuel
        → ((s' : LoopState) (u : W) → s'.usage.steps ≡ s.usage.steps + 1 → Ends (next s' u))
        → Ends (after_attempt deps run_id owner next s r w)
    unfolding after_attempt
    after_attempt-Ends s (returns a) w h ends =
        respond-Ends (record s { usage = plus s.usage a.response.usage }) a w _ refl
          (λ s' u e. ends s' u (ap (λ (v : RunUsage). v.steps) e))
    after_attempt-Ends s (raises e) w h ends = stop-Ends s e w (stop_for e) refl
    after_attempt-Ends s out_of_fuel w h ends = absurd (h refl)

module _ {W : Type 0} (deps : Deps W) (run_id : ℕ) (owner : String)
    (laws : TimePasses W deps.clock deps.ledger) where
  module _ (r : RunRecord) (system_prompt : String) where
    round-Ends :
        (next : LoopState → Prog W RunOutcome) (s : LoopState) (w : W)
        → (s.usage.steps < r.limits.max_steps
            → (s' : LoopState) (u : W) → s'.usage.steps ≡ s.usage.steps + 1
            → Ends (next s' u))
        → Ends (round deps run_id owner r system_prompt next s w)
    unfolding round
    round-Ends next s w ends = elim (Result-cases (check r.limits s.usage)) [
      | inl (u, h) ↦
          rw (h, round)
            (after_attempt-Ends deps run_id owner next s _ _
              (attempt_step-Ends deps run_id (length s.steps)
                (request_for deps run_id owner r system_prompt s) r.limits laws w)
              (ends (check-below_cap r.limits s.usage h)))
      | inr (e, h) ↦ rw (h, round) (fail-Ends deps run_id owner s State.budget_exceeded _ w)
    ]

    -- A round of fuel for each step below the cap, and one more.
    drive-Ends :
        (fuel : ℕ) (s : LoopState) (w : W)
        → r.limits.max_steps < fuel + s.usage.steps
        → 0 < fuel
        → Ends (drive deps run_id owner r system_prompt fuel s w)
    unfolding drive
    drive-Ends zero s w enough pos = absurd (omega arith)
    drive-Ends (suc fuel) s w enough pos =
        round-Ends (drive deps run_id owner r system_prompt fuel) s w
          (λ below s' u e. drive-Ends fuel s' u (omega arith) (omega arith))

  start-Ends : (claimed : Option RunRecord) (w : W) → Ends (start deps run_id owner claimed w)
  unfolding start
  start-Ends none w = λ h. cc
  start-Ends (some r) w =
      Ends-lift_then (deps.load_prompt r.prompt_name r.prompt_version) _ w λ prompt.
        drive-Ends r prompt (suc r.limits.max_steps) (initial r) w (omega arith) (omega arith)

  -- A run comes to an end, by an outcome or by a raise: where time passes on the loop's clock, and no
  -- lookup in the ledger turns it back, the fuel of the three loops (the rounds, the tries of a step,
  -- the polls for a durable tool) never runs out, whatever the model, the tools, the stores and the
  -- queue do.
  pub run-ends : (w : W) → (run deps run_id owner w).0 ≢ out_of_fuel
  unfolding run
  run-ends w =
      Ends-then (deps.store.claim run_id owner deps.lease_ttl) _ w λ claimed. start-Ends claimed _
