-- ===== src/State.antt =====
-- app/core/runtime/state.py: what a run is, as data.
use agent_force.Prelude.{ℕ, ◌+◌, Bool, true, false, String, Option, List, length}
use agent_force.Json.{Fields}
use agent_force.Messages.{Effort, Message, StopReason, Usage}

pub data RunStatus : Type 0 where
  queued running paused completed failed : RunStatus

unfoldable pub is_terminal : RunStatus → Bool
is_terminal queued = false
is_terminal running = false
is_terminal paused = false
is_terminal completed = true
is_terminal failed = true

pub data ErrorCode : Type 0 where
  budget_exceeded upstream_refusal upstream_truncated tool_failed step_failed : ErrorCode
  needs_review tool_pending : ErrorCode

-- `step_timeout_seconds` in whole milliseconds.
pub record RunLimits : Type 0 where
  pub max_steps : ℕ
  pub token_budget : ℕ
  pub max_output_tokens : ℕ
  pub step_timeout : ℕ
  pub max_step_attempts : ℕ
  pub max_run_retries : ℕ

abbrev pub default_limits : RunLimits
default_limits = record {
  max_steps = 12;
  token_budget = 120000;
  max_output_tokens = 16000;
  step_timeout = 60000;
  max_step_attempts = 3;
  max_run_retries = 6;
}

pub record RunUsage : Type 0 where
  pub steps : ℕ
  pub input_tokens : ℕ
  pub output_tokens : ℕ
  pub cache_read_tokens : ℕ

abbrev pub no_usage : RunUsage
no_usage = record { steps = 0; input_tokens = 0; output_tokens = 0; cache_read_tokens = 0 }

unfoldable pub total_tokens : RunUsage → ℕ
total_tokens u = u.input_tokens + u.output_tokens

unfoldable pub plus : RunUsage → Usage → RunUsage
plus u usage = record {
  steps = u.steps + 1;
  input_tokens = u.input_tokens + usage.input_tokens;
  output_tokens = u.output_tokens + usage.output_tokens;
  cache_read_tokens = u.cache_read_tokens + usage.cache_read_input_tokens;
}

pub record ToolCallRecord : Type 0 where
  pub tool_use_id : String
  pub name : String
  pub ok : Bool
  pub detail : Option String

pub record StepRecord : Type 0 where
  pub idx : ℕ
  pub stop_reason : StopReason
  pub usage : Usage
  pub tool_calls : List ToolCallRecord
  pub attempt : ℕ

pub record RunOutcome : Type 0 where
  pub status : RunStatus
  pub usage : RunUsage
  pub messages : List Message
  pub steps : List StepRecord
  pub answer : Option String
  pub error_code : Option ErrorCode
  pub error_message : Option String

pub record NewRun : Type 0 where
  pub agent : String
  pub input : Fields
  pub limits : RunLimits
  pub effort : Effort
  pub prompt_name : String
  pub prompt_version : ℕ
  pub model : String
  pub tenant_id : String
  pub parent_run_id : Option ℕ
  pub idempotency_key : Option String

-- A run's id is the number of its UUID, and a time is a number of clock ticks.
pub record RunRecord : Type 0 where
  pub id : ℕ
  pub agent : String
  pub status : RunStatus
  pub input : Fields
  pub limits : RunLimits
  pub effort : Effort
  pub prompt_name : String
  pub prompt_version : ℕ
  pub model : String
  pub usage : RunUsage
  pub messages : List Message
  pub steps : List StepRecord
  pub retries_used : ℕ
  pub tenant_id : String
  pub parent_run_id : Option ℕ
  pub answer : Option String
  pub error_code : Option ErrorCode
  pub error_message : Option String
  pub lease_owner : Option String
  pub lease_expires_at : Option ℕ

unfoldable pub next_step_idx : RunRecord → ℕ
next_step_idx r = length r.steps
