-- ===== src/Queue/Twice.antt =====
-- The task of app/workers/tasks.py, run a second time over the in-memory ledger.
use agent_force.Prelude.{ℕ, ◌≡◌, refl, String, ◌⊎◌, inl, inr}
use agent_force.Errors.{Exc, tool_crashed}
use agent_force.Effects.{Result, ok}
use agent_force.Effects.Prog.{Run, returns, raises, out_of_fuel}
use agent_force.Json.{Fields}
use agent_force.Tools.Registry.{Registry}
use agent_force.Idempotency.{InvocationOutcome}
use agent_force.World.{World}
use agent_force.Ledger.Port.{ledger_port}
use agent_force.Ledger.Rows.{IsWellFormed}
use agent_force.Execution.Once.{KeepsLedger, execution, crashed_outcome}
use agent_force.Execution.Replay.{execute_again, execute_after_crash}
use agent_force.Queue.Worker.{execute_tool, status_value}
use agent_force.Queue.Redelivery.{IsAnswered}

module _ {E : Type 0} (parse_uuid : String → Result ℕ) (registry : Registry (World E))
    (run_id : String) (step_idx : ℕ) (tool_name : String) (args : Fields) (key : String) where
  abbrev task : World E → Run String × World E
  task = execute_tool parse_uuid registry ledger_port run_id step_idx tool_name args key

  task-ok :
      (id : ℕ) (w w' : World E) (o : InvocationOutcome)
      → parse_uuid run_id ≡ ok id
      → execution registry id step_idx tool_name args key w ≡ (returns o, w')
      → task w ≡ (returns (status_value o.status), w')
  unfolding execute_tool
  task-ok id w w' o p h = rw (p, h, execute_tool) refl

  task-raises :
      (id : ℕ) (w w' : World E) (e : Exc)
      → parse_uuid run_id ≡ ok id
      → execution registry id step_idx tool_name args key w ≡ (raises e, w')
      → task w ≡ (raises e, w')
  unfolding execute_tool
  task-raises id w w' e p h = rw (p, h, execute_tool) refl

  abbrev Repeats : World E → Type 0
  Repeats w =
      (status : String) × (task (task w).1 ≡ (returns status, (task w).1))
      × (((task w).0 ≡ returns status)
          ⊎ ((name : String) × (cause : Exc) × ((task w).0 ≡ raises (tool_crashed name cause))
              × (status ≡ "FAILED")))

  task-Repeats :
      (id : ℕ) (w w' : World E) (end : Run InvocationOutcome)
      → parse_uuid run_id ≡ ok id
      → IsWellFormed w.ledger
      → KeepsLedger E registry
      → execution registry id step_idx tool_name args key w ≡ (end, w')
      → IsAnswered end
      → Repeats w
  unfolding status_value
  task-Repeats id w w' (returns o) p v k ran a = rw (task-ok id w w' o p ran) (
    status_value o.status,
    task-ok id w' w' o p (execute_again registry id step_idx tool_name args key w w' o v k ran),
    inl refl,
  )
  task-Repeats id w w' (raises (tool_crashed n c)) p v k ran a =
      rw (task-raises id w w' (tool_crashed n c) p ran) (
        "FAILED",
        task-ok id w' w' (crashed_outcome c) p
            (execute_after_crash registry id step_idx tool_name args key w w' n c v k ran),
        inr (n, c, refl, refl),
      )
  task-Repeats id w w' (raises e) p v k ran a = absurd a
  task-Repeats id w w' out_of_fuel p v k ran a = absurd a

  -- The body of the worker's task is safe to run twice in a row over the in-memory ledger: with tools that do not write to a coherent
  -- ledger, where the task returned a status, running it again returns the same status, and where it
  -- crashed in the tool, running it again returns that the call failed; neither changes anything.
  execute_tool-twice :
      (id : ℕ) (w : World E)
      → parse_uuid run_id ≡ ok id
      → IsWellFormed w.ledger
      → KeepsLedger E registry
      → IsAnswered (execution registry id step_idx tool_name args key w).0
      → Repeats w
  execute_tool-twice id w p v k a =
      let ran = execution registry id step_idx tool_name args key w in
      task-Repeats id w ran.1 ran.0 p v k refl a
