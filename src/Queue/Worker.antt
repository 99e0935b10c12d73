-- ===== src/Queue/Worker.antt =====
-- `execute_tool` of app/workers/tasks.py. `uuid.UUID` is given; the log is not modelled.
use agent_force.Prelude.{ℕ, String}
use agent_force.Effects.{Result}
use agent_force.Effects.Prog.{Prog, pure, lift, ◌>>=◌}
use agent_force.Json.{Fields}
use agent_force.Idempotency.{InvocationStatus, pending, succeeded, failed, needs_review}
use agent_force.Ports.{ToolLedger}
use agent_force.Tools.Registry.{Registry}
use agent_force.Execution.{execute_invocation}

-- `InvocationStatus(...).value`
unfoldable pub status_value : InvocationStatus → String
status_value pending = "PENDING"
status_value succeeded = "SUCCEEDED"
status_value failed = "FAILED"
status_value needs_review = "NEEDS_REVIEW"

-- An exception is logged and raised again.
unfoldable pub execute_tool :
    {W : Type 0}
    → (String → Result ℕ)
    → Registry W
    → ToolLedger W
    → String
    → ℕ
    → String
    → Fields
    → String
    → Prog W String
unfolding execute_invocation status_value
execute_tool parse_uuid registry ledger run_id step_idx tool_name args key = do
  id ← lift (parse_uuid run_id)
  outcome ← execute_invocation registry ledger id step_idx tool_name args key
  pure (status_value outcome.status)
