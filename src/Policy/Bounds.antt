-- ===== src/Policy/Bounds.antt =====
-- What the policy bounds: the steps, and the tokens that the next step may still produce.
use agent_force.Prelude.{ℕ, ◌+◌, ◌≤◌, ◌<◌, ◌≡◌, ◌↔◌, ◌-◌, min, arith}
use agent_force.Prelude.Int.{pos}
use agent_force.Effects.{ok}
use agent_force.State.{RunLimits, RunUsage, total_tokens}
use agent_force.Policy.{check, max_tokens_for_next_step, min_viable_output_tokens}

-- A step is authorised exactly if the steps are below the cap and at least the smallest viable
-- output is left of the token budget.
pub check-eq-ok_iff :
    (limits : RunLimits) (usage : RunUsage)
    → (check limits usage ≡ ok tt) ↔ (
        (usage.steps < limits.max_steps)
        × (total_tokens usage + min_viable_output_tokens ≤ limits.token_budget))
unfolding check
check-eq-ok_iff limits usage = ground arith

-- For an authorised step the output ceiling is not negative, is at most the configured ceiling, and
-- keeps the run within its token budget; it is smaller than the smallest viable output only if the
-- configured ceiling is.
pub max_tokens_affordable :
    (limits : RunLimits) (usage : RunUsage)
    → check limits usage ≡ ok tt
    → (m : ℕ) × (max_tokens_for_next_step limits usage ≡ pos m)
      × (m ≤ limits.max_output_tokens)
      × (total_tokens usage + m ≤ limits.token_budget)
      × (min min_viable_output_tokens limits.max_output_tokens ≤ m)
unfolding check max_tokens_for_next_step
max_tokens_affordable limits usage h = (
  min limits.max_output_tokens (limits.token_budget - total_tokens usage),
  ground arith,
  ground arith,
  ground arith,
  ground arith,
)
