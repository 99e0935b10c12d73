-- ===== src/Policy.antt =====
-- app/core/runtime/policy.py: the step cap and the token budget.
pub mod Bounds
use agent_force.Prelude.{ℕ, ◌+◌, leb, ltb, if◌then◌else◌}
use agent_force.Prelude.Int.{ℤ, sub_ℕ, min_ℤ}
use agent_force.Errors.{budget_exceeded}
use agent_force.Effects.{Result, ok, err}
use agent_force.State.{RunLimits, RunUsage, total_tokens}

abbrev pub min_viable_output_tokens : ℕ
min_viable_output_tokens = 1024

-- `remaining < MIN_VIABLE_OUTPUT_TOKENS`, with the subtraction on the other side.
unfoldable pub check : RunLimits → RunUsage → Result (Unit {0})
unfolding total_tokens
check limits usage =
    if leb limits.max_steps usage.steps
    then err (budget_exceeded "step cap" limits.max_steps usage.steps usage.steps)
    else if ltb limits.token_budget (total_tokens usage + min_viable_output_tokens)
    then err (budget_exceeded "token budget" limits.token_budget (total_tokens usage) usage.steps)
    else ok tt

unfoldable pub max_tokens_for_next_step : RunLimits → RunUsage → ℤ
unfolding total_tokens
max_tokens_for_next_step limits usage =
    min_ℤ limits.max_output_tokens (sub_ℕ limits.token_budget (total_tokens usage))
