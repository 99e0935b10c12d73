-- ===== src/Loop/Dispatch.antt =====
-- One turn's tool calls: `_execute_all`, `_execute_one` and `_execute_durable`.
use agent_force.Prelude.{
  ℕ, zero, suc, ◌*◌, ◌-◌, min, String, Option, none, some, List, [], ◌∷◌, leb, if◌then◌else◌,
}
use agent_force.Prelude.Text.{◌&◌, repr}
use agent_force.Errors.{
  Exc, tool_not_found, tool_input_invalid, tool_crashed, tool_bug, tool_in_flight,
  queue_not_configured, str,
}
use agent_force.Effects.Prog.{
  Run, Prog, returns, raises, out_of_fuel, pure, raise, diverge, call, lift, try_except, ◌>>=◌,
  ◌>>◌,
}
use agent_force.Messages.{ToolUseBlock, ToolResultBlock}
use agent_force.State.{ToolCallRecord}
use agent_force.Tools.Spec.{ToolSpec, inline, durable, validate_input}
use agent_force.Tools.Registry.{lookup}
use agent_force.Idempotency.{InvocationOutcome, is_terminal}
use agent_force.Idempotency.Key.{invocation_key}
use agent_force.Ports.{TaskQueue}
use agent_force.Execution.{execute_invocation}
use agent_force.Loop.Deps.{Deps}
use agent_force.Loop.Blocks.{CallResult, error_result, result_from}

-- In ticks of 50 microseconds.
abbrev pub poll_min : ℕ
poll_min = 2000

abbrev pub poll_max : ℕ
poll_max = 40000

-- What the `except` clauses around lookup and validation give back to the model.
unfoldable pub recoverable : Exc → Option String
recoverable (tool_input_invalid name detail) = some detail
recoverable (tool_not_found name available) = some (str (tool_not_found name available))
recoverable e = none

-- `except ToolCrashed`, inline: a bug in a tool fails the run.
unfoldable pub bug_of : Exc → Exc
bug_of (tool_crashed name cause) = tool_bug cause
bug_of e = e

unfoldable pub finished : Option InvocationOutcome → Option InvocationOutcome
unfolding is_terminal
finished none = none
finished (some o) = if is_terminal o then some o else none

module _ {W : Type 0} (deps : Deps W) (run_id step_idx deadline : ℕ) where
  unfoldable pub key_of : ToolUseBlock → String
  unfolding invocation_key
  key_of block = invocation_key deps.sha256 run_id step_idx block.name block.input

  -- `spec = self._registry.get(block.name)` and `spec.validate_input(block.input)`
  unfoldable pub find_tool : ToolUseBlock → Prog W (ToolSpec W)
  unfolding lookup validate_input
  find_tool block = do
    spec ← lift (lookup deps.registry block.name)
    payload ← lift (validate_input spec block.input)
    pure spec

  -- The `while` of `_execute_durable`, on fuel.
  unfoldable pub poll :
      ℕ → String → String → ℕ → Option InvocationOutcome → Prog W InvocationOutcome
  unfolding finished
  poll zero name key interval outcome = diverge
  poll (suc fuel) name key interval outcome = elim (finished outcome) [
    | some o ↦ pure o
    | none ↦ (do
      now ← call deps.clock.loop_time
      if leb deadline now then raise (tool_in_flight name step_idx) else (do
        call (deps.clock.sleep (min interval (deadline - now)))
        outcome' ← call (deps.ledger.lookup key)
        poll fuel name key (min (interval * 2) poll_max) outcome'))
  ]

  unfoldable pub enqueue_if_absent :
      TaskQueue W → ToolUseBlock → Option InvocationOutcome → Prog W (Unit {0})
  unfolding key_of
  enqueue_if_absent queue block none =
      call (queue.enqueue_tool run_id step_idx block.name block.input (key_of block))
  enqueue_if_absent queue block (some o) = pure tt

  -- A round of polling passes at least a tick, so as many rounds as the deadline has ticks, and one
  -- to find it passed, are enough.
  unfoldable pub execute_durable : ToolUseBlock → ToolSpec W → Prog W CallResult
  unfolding enqueue_if_absent poll result_from
  execute_durable block spec = elim deps.queue [
    | none ↦ raise (
        queue_not_configured ("Tool " & repr spec.name & " is DURABLE but no queue is configured."))
    | some queue ↦ (do
      outcome ← call (deps.ledger.lookup (key_of block))
      enqueue_if_absent queue block outcome
      o ← poll (suc deadline) block.name (key_of block) poll_min outcome
      lift (result_from block o))
  ]

  unfoldable pub execute_inline : ToolUseBlock → Prog W CallResult
  unfolding execute_invocation key_of result_from bug_of
  execute_inline block = do
    outcome ←
        try_except
          (execute_invocation deps.registry deps.ledger run_id step_idx block.name block.input
            (key_of block))
          (λ e. raise (bug_of e))
    lift (result_from block outcome)

  unfoldable pub execute_found : ToolUseBlock → ToolSpec W → Prog W CallResult
  unfolding execute_durable execute_inline
  execute_found block spec = elim spec.execution [
    | durable ↦ execute_durable block spec
    | inline ↦ execute_inline block
  ]

  -- A refusal of the lookup or of the validation becomes an error result.
  unfoldable pub not_executed : ToolUseBlock → Exc → Prog W CallResult
  unfolding recoverable error_result
  not_executed block e = elim (recoverable e) [
    | none ↦ raise e
    | some detail ↦ pure (error_result block detail)
  ]

  unfoldable pub after_lookup : ToolUseBlock → Run (ToolSpec W) → Prog W CallResult
  unfolding execute_found not_executed
  after_lookup block (returns spec) = execute_found block spec
  after_lookup block (raises e) = not_executed block e
  after_lookup block out_of_fuel = diverge

  unfoldable pub execute_one : ToolUseBlock → Prog W CallResult
  unfolding find_tool after_lookup
  execute_one block w = let (r, w') = find_tool block w in after_lookup block r w'

  unfoldable pub execute_all :
      List ToolUseBlock → Prog W (List ToolResultBlock × List ToolCallRecord)
  unfolding execute_one
  execute_all [] = pure ([], [])
  execute_all (block ∷ blocks) = do
    one ← execute_one block
    rest ← execute_all blocks
    pure (one.0 ∷ rest.0, one.1 ∷ rest.1)
