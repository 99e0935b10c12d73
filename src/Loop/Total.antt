-- ===== src/Loop/Total.antt =====
-- A run comes to an end: the retries and the rounds of the loop are bounded.
use agent_force.Prelude.{
  ℕ, zero, suc, ◌+◌, ◌*◌, ◌/◌, ◌≤◌, ◌≡◌, ◌≢◌, refl, inl, inr, arith, ltb, ltb→ge, Bool-cases,
  Option-cases,
}
use agent_force.Errors.{Exc, cancelled}
use agent_force.Effects.Prog.{Run, Prog, returns, raises, out_of_fuel}
use agent_force.Effects.Ends.{Ends, Ends-then, Ends-bind, Ends-if, as_run-ends}
use agent_force.Messages.{LlmResponse, StopReason, tool_use}
use agent_force.State.{RunLimits}
use agent_force.Retry.{delay_for, random_steps}
use agent_force.Ports.{Request}
use agent_force.Loop.Deps.{Deps}
use agent_force.Loop.Blocks.{requested}
use agent_force.Loop.Attempts.{
  Attempt, retryable, patience, timed_out, tools_of, in_block, within_timeout, one_try, charge,
  back_off, after_try, attempts, attempt_step,
}
use agent_force.Loop.Termination.{TimePasses, execute_all-Ends}

timed_out-ends : {A : Type 0} (r : Run A) → r ≢ out_of_fuel → timed_out r ≢ out_of_fuel
unfolding timed_out
timed_out-ends (returns a) h q = cc
timed_out-ends (raises cancelled) h q = cc
timed_out-ends (raises e) h q = cc
timed_out-ends out_of_fuel h q = h refl

module _ {W : Type 0} (deps : Deps W) (run_id step_idx : ℕ) (request : Request) (limits : RunLimits)
    (laws : TimePasses W deps.clock deps.ledger) where
  tools_of-Ends :
      (deadline : ℕ) (response : LlmResponse) (w : W) (reason : StopReason)
      → response.stop_reason ≡ reason
      → Ends (tools_of deps run_id step_idx request limits deadline response w)
  unfolding tools_of
  tools_of-Ends deadline response w tool_use e =
      rw (e, tools_of)
        (execute_all-Ends deps run_id step_idx deadline laws (requested response.content) w)
  tools_of-Ends deadline response w _ e = rw (e, tools_of) (λ h. cc)

  one_try-Ends :
      (attempt : ℕ) (w : W) → Ends (one_try deps run_id step_idx request limits attempt w)
  unfolding one_try within_timeout in_block
  one_try-Ends attempt w = Ends-then deps.clock.loop_time _ w λ now. timed_out-ends _ (
      Ends-then (deps.llm.complete request) _ _ λ response.
        Ends-bind
          (tools_of deps run_id step_idx request limits (now + patience limits.step_timeout)
            response)
          _ _
          (tools_of-Ends (now + patience limits.step_timeout) response _ response.stop_reason refl)
          (λ done h. cc))

  charge-Ends :
      (attempt : ℕ) (failure : Exc) (next : Prog W Attempt) (w : W)
      → (attempt ≤ limits.max_step_attempts → (u : W) → Ends (next u))
      → Ends (charge deps run_id step_idx request limits attempt failure next w)
  unfolding charge back_off
  charge-Ends attempt failure next w ends =
      elim (Bool-cases (ltb limits.max_step_attempts attempt)) [
        | inl over ↦ rw over (λ h. cc)
        | inr more ↦ rw more (
            Ends-then (deps.store.record_retry run_id) _ w λ total.
              Ends-if (ltb limits.max_run_retries total) _ _ _ (λ h. cc)
                (Ends-bind (back_off deps run_id step_idx request limits attempt) (λ _. next) _
                  (Ends-then deps.clock.random _ _ λ random.
                    as_run-ends
                      (deps.clock.sleep (delay_for deps.backoff attempt random * 20 / random_steps)
                        _).0)
                  λ _. ends (ltb→ge limits.max_step_attempts attempt more) _))
      ]

  after_try-Ends :
      (attempt : ℕ) (next : Prog W Attempt) (r : Run Attempt) (w : W)
      → r ≢ out_of_fuel
      → (attempt + 1 ≤ limits.max_step_attempts → (u : W) → Ends (next u))
      → Ends (after_try deps run_id step_idx request limits attempt next r w)
  unfolding after_try
  after_try-Ends attempt next (returns a) w h ends = λ q. cc
  after_try-Ends attempt next out_of_fuel w h ends = absurd (h refl)
  after_try-Ends attempt next (raises e) w h ends =
      elim (Option-cases (retryable step_idx limits.step_timeout e)) [
        | inl q ↦ rw (q, after_try) (λ k. cc)
        | inr (failure, q) ↦ rw (q, after_try) (charge-Ends (attempt + 1) failure next w ends)
      ]

  -- A round of fuel for each try that is still allowed, and one more.
  attempts-Ends :
      (fuel attempt : ℕ) (w : W)
      → limits.max_step_attempts + 2 ≤ fuel + attempt
      → attempt ≤ limits.max_step_attempts + 1
      → Ends (attempts deps run_id step_idx request limits fuel attempt w)
  unfolding attempts
  attempts-Ends zero attempt w enough few = absurd (omega arith)
  attempts-Ends (suc fuel) attempt w enough few =
      after_try-Ends attempt _ _ _ (one_try-Ends attempt w)
        λ more u. attempts-Ends fuel (attempt + 1) u (omega arith) (omega arith)

  pub attempt_step-Ends : (w : W) → Ends (attempt_step deps run_id step_idx request limits w)
  unfolding attempt_step
  attempt_step-Ends w = attempts-Ends (suc limits.max_step_attempts) 1 w (omega arith) (omega arith)
