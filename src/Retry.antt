-- ===== src/Retry.antt =====
-- app/core/runtime/retry.py: exponential backoff with full jitter.
pub mod Jitter
use agent_force.Prelude.{ℕ, ◌-◌, ◌*◌, ◌^◌, min, leb, if◌then◌else◌}

-- The seconds of the source in whole milliseconds.
pub record BackoffPolicy : Type 0 where
  pub base : ℕ
  pub max_delay : ℕ

abbrev pub default_backoff : BackoffPolicy
default_backoff = record { base = 500; max_delay = 30000 }

-- `random.random()` is one of the 2^53 fractions k / 2^53 with k < 2^53.
abbrev pub random_steps : ℕ
random_steps = 2 ^ 53

unfoldable pub ceiling : BackoffPolicy → ℕ → ℕ
ceiling p attempt = min p.max_delay (p.base * 2 ^ (attempt - 2))

-- The delay times 2^53, so that the product with the random fraction is exact.
unfoldable pub delay_for : BackoffPolicy → ℕ → ℕ → ℕ
unfolding ceiling
delay_for p attempt random = if leb attempt 1 then 0 else ceiling p attempt * random
