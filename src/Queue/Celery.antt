-- ===== src/Queue/Celery.antt =====
-- `CeleryTaskQueue` of app/adapters/queue/celery_task_queue.py. Celery's `send_task` is given.
use agent_force.Prelude.{ℕ, String, str_eq, if◌then◌else◌}
use agent_force.Prelude.Text.{◌&◌, repr, show_uuid}
use agent_force.Errors.{Exc, other, task_queue_unavailable}
use agent_force.Effects.Prog.{Prog, Call, call, raise, try_except}
use agent_force.Json.{Fields, string, num, obj, end, field}
use agent_force.Prelude.Text.{show_nat}

-- The keyword arguments of the task, as JSON.
unfoldable pub payload_of : ℕ → ℕ → String → Fields → String → Fields
payload_of run_id step_idx tool_name args key = field "run_id" (string (show_uuid run_id)) (
    field "step_idx" (num (show_nat step_idx)) (
      field "tool_name" (string tool_name)
        (field "args" (obj args) (field "key" (string key) end))))

-- `except OperationalError`
unfoldable pub unpublished : String → Exc → Exc
unpublished tool_name (other name text) =
    if str_eq name "OperationalError"
    then task_queue_unavailable ("Could not queue " & repr tool_name & ": " & text)
    else other name text
unpublished tool_name e = e

module _ {W : Type 0} (send_task : String → Fields → Call W (Unit {0})) (task_name : String) where
  unfoldable pub enqueue_tool : ℕ → ℕ → String → Fields → String → Prog W (Unit {0})
  unfolding payload_of unpublished
  enqueue_tool run_id step_idx tool_name args key =
      try_except (call (send_task task_name (payload_of run_id step_idx tool_name args key)))
        (λ e. raise (unpublished tool_name e))
