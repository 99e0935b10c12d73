-- ===== src/Loop/Tries.antt =====
-- The bound on the tries of a step.
use agent_force.Prelude.{
  ℕ, zero, suc, ◌+◌, ◌*◌, ltb→ge, ◌≤◌, ◌≡◌, refl, max, inl, inr, arith, ltb, Option-cases,
}
use agent_force.Errors.{Exc, cancelled}
use agent_force.Effects.Prog.{Run, Prog, returns, raises, out_of_fuel}
use agent_force.Effects.Yields.{Yields, Yields-then, Yields-bind, Yields-if}
use agent_force.State.{RunLimits}
use agent_force.Ports.{Request}
use agent_force.Loop.Deps.{Deps}
use agent_force.Loop.Attempts.{
  Attempt, retryable, tools_of, in_block, within_timeout, timed_out, one_try, patience, back_off,
  charge, after_try, attempts, attempt_step,
}

module _ {W : Type 0} (deps : Deps W) (run_id step_idx : ℕ) (request : Request)
    (limits : RunLimits) where
  abbrev Numbered : ℕ → Attempt → W → Type 0
  Numbered n a w = a.attempt ≡ n

  abbrev Bounded : Attempt → W → Type 0
  Bounded a w = (1 ≤ a.attempt) × (a.attempt ≤ max 1 limits.max_step_attempts)

  in_block-Numbered :
      (n deadline : ℕ) (w : W)
      → Yields (Numbered n) (in_block deps run_id step_idx request limits n deadline w)
  unfolding in_block
  in_block-Numbered n deadline w =
      Yields-then (Numbered n) (deps.llm.complete request) _ w λ response.
        Yields-bind (Numbered n) (tools_of deps run_id step_idx request limits deadline response) _
          _ λ done _. refl

  timed_out-Numbered :
      (n : ℕ) (r : Run Attempt) (u w : W)
      → Yields (Numbered n) (r, u)
      → Yields (Numbered n) (timed_out r, w)
  unfolding timed_out
  timed_out-Numbered n (returns a) u w h = h
  timed_out-Numbered n (raises cancelled) u w h = tt
  timed_out-Numbered n (raises e) u w h = tt
  timed_out-Numbered n out_of_fuel u w h = tt

  one_try-Numbered :
      (n : ℕ) (w : W) → Yields (Numbered n) (one_try deps run_id step_idx request limits n w)
  unfolding one_try within_timeout
  one_try-Numbered n w = Yields-then (Numbered n) deps.clock.loop_time _ w λ now.
      let entered =
        deps.clock.enter_timeout (limits.step_timeout * 20) (deps.clock.loop_time w).1 in
      let deadline = now + patience limits.step_timeout in
      timed_out-Numbered n _ _ _ (in_block-Numbered n deadline entered)

  charge-Bounded :
      (n : ℕ) (failure : Exc) (next : Prog W Attempt) (w : W)
      → (n ≤ limits.max_step_attempts → (u : W) → Yields Bounded (next u))
      → Yields Bounded (charge deps run_id step_idx request limits n failure next w)
  unfolding charge back_off
  charge-Bounded n failure next w more =
      Yields-if Bounded (ltb limits.max_step_attempts n) _ _ w (λ h. tt)
        λ h. Yields-then Bounded (deps.store.record_retry run_id) _ w λ total.
          Yields-if Bounded (ltb limits.max_run_retries total) _ _ _ (λ q. tt)
            λ q.
              Yields-bind Bounded (back_off deps run_id step_idx request limits n) (λ _. next) _
                λ _ _. more (ltb→ge limits.max_step_attempts n h) _

  after_try-Bounded :
      (n : ℕ) (next : Prog W Attempt) (r : Run Attempt) (w : W)
      → 1 ≤ n
      → n ≤ max 1 limits.max_step_attempts
      → Yields (Numbered n) (r, w)
      → (n + 1 ≤ limits.max_step_attempts → (u : W) → Yields Bounded (next u))
      → Yields Bounded (after_try deps run_id step_idx request limits n next r w)
  unfolding after_try
  after_try-Bounded n next (returns a) w one le h more = (omega arith, omega arith)
  after_try-Bounded n next (raises e) w one le h more =
      elim (Option-cases (retryable step_idx limits.step_timeout e)) [
        | inl q ↦ rw (q, after_try) tt
        | inr (failure, q) ↦ rw (q, after_try) (charge-Bounded (n + 1) failure next w more)
      ]
  after_try-Bounded n next out_of_fuel w one le h more = tt

  attempts-Bounded :
      (fuel n : ℕ) (w : W)
      → 1 ≤ n
      → n ≤ max 1 limits.max_step_attempts
      → Yields Bounded (attempts deps run_id step_idx request limits fuel n w)
  unfolding attempts
  attempts-Bounded zero n w one le = tt
  attempts-Bounded (suc fuel) n w one le =
      after_try-Bounded n (attempts deps run_id step_idx request limits fuel (n + 1)) _ _ one le
        (one_try-Numbered n w)
        (λ more u. attempts-Bounded fuel (n + 1) u (omega arith) (omega arith))

  -- A step that succeeds does so on a try whose number, which the step records, is from 1 to the
  -- bound on the tries of a step, or on the first, whatever the model, the tools and the store do.
  pub attempt_step-Bounded :
      (a : Attempt) (w w' : W)
      → attempt_step deps run_id step_idx request limits w ≡ (returns a, w')
      → (1 ≤ a.attempt) × (a.attempt ≤ max 1 limits.max_step_attempts)
  unfolding attempt_step
  attempt_step-Bounded a w w' h =
      rw h at (attempts-Bounded (suc limits.max_step_attempts) 1 w (omega arith) (omega arith))
