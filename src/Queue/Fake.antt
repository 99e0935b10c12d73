-- ===== src/Queue/Fake.antt =====
-- `FakeTaskQueue` of app/adapters/queue/fake_task_queue.py: a queue with its worker.
use agent_force.Prelude.{
  ℕ, ◌-◌, suc, String, Option, none, some, List, [], ◌∷◌, ◌++◌, length, get_elem?, leb,
  if◌then◌else◌,
}
use agent_force.Prelude.Int.{ℤ, pos, negsuc}
use agent_force.Errors.{
  Exc, task_queue_unavailable, tool_crashed, invalid_tool_spec, duplicate_tool_name, tool_not_found,
  tool_input_invalid, tool_execution_failed, other,
}
use agent_force.Effects.Prog.{Run, Prog, returns, raises, out_of_fuel, pure, ◌>>◌}
use agent_force.Json.{Fields}
use agent_force.Idempotency.{InvocationOutcome}
use agent_force.Ports.{ToolLedger}
use agent_force.Tools.Registry.{Registry}
use agent_force.Execution.{execute_invocation}

pub data Delivery : Type 0 where
  immediate deferred unavailable : Delivery

pub record Dispatch : Type 0 where
  pub run_id : ℕ
  pub step_idx : ℕ
  pub tool_name : String
  pub args : Fields
  pub key : String

pub record FakeTaskQueue (W : Type 0) : Type 0 where
  pub registry : Registry W
  pub ledger : ToolLedger W
  pub mode : Delivery
  pub dispatched : List Dispatch
  pub undelivered : List Dispatch
  pub crashes : List Exc

-- Which `except` clause of `_run` takes an exception, and the crash that it notes. The class of
-- `ToolCrashed` comes first; the others are those that derive from `ToolError`.
unfoldable pub noted : String → Exc → Option Exc
noted tool_name (tool_crashed n e) = some (tool_crashed n e)
noted tool_name (invalid_tool_spec m) = some (tool_crashed tool_name (invalid_tool_spec m))
noted tool_name (duplicate_tool_name m) = some (tool_crashed tool_name (duplicate_tool_name m))
noted tool_name (tool_not_found n a) = some (tool_crashed tool_name (tool_not_found n a))
noted tool_name (tool_input_invalid n d) = some (tool_crashed tool_name (tool_input_invalid n d))
noted tool_name (tool_execution_failed m) = some (tool_crashed tool_name (tool_execution_failed m))
noted tool_name e = none

-- The queue object changes along with the world.
abbrev pub QueueState : Type 0 → Type 0
QueueState W = FakeTaskQueue W × W

module _ {W : Type 0} where
  unfoldable pub note : Option Exc → Exc → Prog (QueueState W) (Unit {0})
  note none e s = (raises e, s)
  note (some crash) e (q, w) = (returns tt, (record q { crashes = q.crashes ++ crash ∷ [] }, w))

  unfoldable pub after_run :
      Dispatch → FakeTaskQueue W → Run InvocationOutcome × W → Run (Unit {0}) × QueueState W
  unfolding note noted
  after_run d q (returns o, w) = (returns tt, (q, w))
  after_run d q (raises e, w) = note (noted d.tool_name e) e (q, w)
  after_run d q (out_of_fuel, w) = (out_of_fuel, (q, w))

  -- `_run`
  unfoldable pub run_dispatch : Dispatch → Prog (QueueState W) (Unit {0})
  unfolding after_run
  run_dispatch d (q, w) =
      after_run d q
        (execute_invocation q.registry q.ledger d.run_id d.step_idx d.tool_name d.args d.key w)

  unfoldable pub run_all : List Dispatch → Prog (QueueState W) (Unit {0})
  unfolding run_dispatch
  run_all [] = pure tt
  run_all (d ∷ ds) = run_dispatch d >> run_all ds

  unfoldable pub accept : Delivery → Dispatch → Prog (QueueState W) (Unit {0})
  unfolding run_dispatch
  accept unavailable d s = (raises (task_queue_unavailable "Fake broker is unavailable."), s)
  accept immediate d (q, w) = run_dispatch d (record q { dispatched = q.dispatched ++ d ∷ [] }, w)
  accept deferred d (q, w) = (
    returns tt,
    (record q { dispatched = q.dispatched ++ d ∷ []; undelivered = q.undelivered ++ d ∷ [] }, w),
  )

  unfoldable pub enqueue_tool : ℕ → ℕ → String → Fields → String → Prog (QueueState W) (Unit {0})
  unfolding accept
  enqueue_tool run_id step_idx tool_name args key (q, w) =
      accept q.mode
        (record {
          run_id = run_id;
          step_idx = step_idx;
          tool_name = tool_name;
          args = args;
          key = key;
        })
        (q, w)

  unfoldable pub deliver_all : Prog (QueueState W) (Unit {0})
  unfolding run_all
  deliver_all (q, w) = run_all q.undelivered (record q { undelivered = [] }, w)

  -- `self.dispatched[index]`: a negative index counts from the end.
  unfoldable pub dispatched_at : FakeTaskQueue W → ℤ → Option Dispatch
  dispatched_at q (pos i) = get_elem? q.dispatched i
  dispatched_at q (negsuc i) =
      if leb (suc i) (length q.dispatched)
      then get_elem? q.dispatched (length q.dispatched - suc i)
      else none

  unfoldable pub redeliver : ℤ → Prog (QueueState W) (Unit {0})
  unfolding dispatched_at run_dispatch
  redeliver index (q, w) = elim (dispatched_at q index) [
    | none ↦ (raises (other "IndexError" "list index out of range"), (q, w))
    | some d ↦ run_dispatch d (q, w)
  ]
