-- ===== src/Loop/Replies.antt =====
-- What is known of every response of the model is known of the response of a step.
use agent_force.Prelude.{ℕ, zero, suc, ◌+◌, ◌*◌, ◌≡◌, inl, inr, arith, ltb, Option-cases}
use agent_force.Errors.{Exc, cancelled}
use agent_force.Effects.{Result, ok, err}
use agent_force.Effects.Prog.{Run, Prog, returns, raises, out_of_fuel, call, as_run}
use agent_force.Effects.Yields.{Yields, Yields-then, Yields-bind, Yields-if}
use agent_force.Messages.{LlmResponse}
use agent_force.State.{RunLimits}
use agent_force.Ports.{Request}
use agent_force.Loop.Deps.{Deps}
use agent_force.Loop.Attempts.{
  Attempt, retryable, tools_of, in_block, within_timeout, timed_out, one_try, patience, back_off,
  charge, after_try, attempts, attempt_step,
}

as_run-returns {ℓ} : {A : Type ℓ} (r : Result A) (a : A) → as_run r ≡ returns a → r ≡ ok a
as_run-returns (ok b) a h = ground arith
as_run-returns (err e) a h = absurd (ground arith)

module _ {W : Type 0} (deps : Deps W) (R : LlmResponse → Type 0)
    (replies : (request : Request) (response : LlmResponse) (w : W)
      → (deps.llm.complete request w).0 ≡ ok response
      → R response)
    (run_id step_idx : ℕ) (request : Request) (limits : RunLimits) where
  abbrev Answers : Attempt → W → Type 0
  Answers a w = R a.response

  in_block-Answers :
      (n deadline : ℕ) (w : W)
      → Yields Answers (in_block deps run_id step_idx request limits n deadline w)
  unfolding in_block
  in_block-Answers n deadline w =
      Yields-bind Answers (call (deps.llm.complete request)) _ w λ response e.
        Yields-bind Answers (tools_of deps run_id step_idx request limits deadline response) _ _
          λ done _. replies request response w (as_run-returns _ response e)

  timed_out-Answers :
      (r : Run Attempt) (u w : W) → Yields Answers (r, u) → Yields Answers (timed_out r, w)
  unfolding timed_out
  timed_out-Answers (returns a) u w h = h
  timed_out-Answers (raises cancelled) u w h = tt
  timed_out-Answers (raises e) u w h = tt
  timed_out-Answers out_of_fuel u w h = tt

  one_try-Answers :
      (n : ℕ) (w : W) → Yields Answers (one_try deps run_id step_idx request limits n w)
  unfolding one_try within_timeout
  one_try-Answers n w = Yields-then Answers deps.clock.loop_time _ w λ now.
      let entered =
        deps.clock.enter_timeout (limits.step_timeout * 20) (deps.clock.loop_time w).1 in
      timed_out-Answers _ _ _ (in_block-Answers n (now + patience limits.step_timeout) entered)

  charge-Answers :
      (n : ℕ) (failure : Exc) (next : Prog W Attempt) (w : W)
      → ((u : W) → Yields Answers (next u))
      → Yields Answers (charge deps run_id step_idx request limits n failure next w)
  unfolding charge back_off
  charge-Answers n failure next w more =
      Yields-if Answers (ltb limits.max_step_attempts n) _ _ w (λ h. tt)
        λ h. Yields-then Answers (deps.store.record_retry run_id) _ w λ total.
          Yields-if Answers (ltb limits.max_run_retries total) _ _ _ (λ q. tt)
            λ q.
              Yields-bind Answers (back_off deps run_id step_idx request limits n) (λ _. next) _
                λ _ _. more _

  after_try-Answers :
      (n : ℕ) (next : Prog W Attempt) (r : Run Attempt) (w : W)
      → Yields Answers (r, w)
      → ((u : W) → Yields Answers (next u))
      → Yields Answers (after_try deps run_id step_idx request limits n next r w)
  unfolding after_try
  after_try-Answers n next (returns a) w h more = h
  after_try-Answers n next (raises e) w h more =
      elim (Option-cases (retryable step_idx limits.step_timeout e)) [
        | inl q ↦ rw (q, after_try) tt
        | inr (failure, q) ↦ rw (q, after_try) (charge-Answers (n + 1) failure next w more)
      ]
  after_try-Answers n next out_of_fuel w h more = tt

  attempts-Answers :
      (fuel n : ℕ) (w : W) → Yields Answers (attempts deps run_id step_idx request limits fuel n w)
  unfolding attempts
  attempts-Answers zero n w = tt
  attempts-Answers (suc fuel) n w =
      after_try-Answers n (attempts deps run_id step_idx request limits fuel (n + 1)) _ _
        (one_try-Answers n w) (attempts-Answers fuel (n + 1))

  pub attempt_step-Answers :
      (w : W) → Yields Answers (attempt_step deps run_id step_idx request limits w)
  unfolding attempt_step
  attempt_step-Answers w = attempts-Answers (suc limits.max_step_attempts) 1 w
