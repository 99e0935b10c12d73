-- ===== src/Loop/Untouched.antt =====
-- What an invocation leaves as it was: all that the loop's collaborators leave, since it reaches the
-- outside world through them alone.
pub mod Step
use agent_force.Prelude.{
  Bool, true, false, ℕ, zero, suc, ◌+◌, ◌*◌, ◌-◌, ◌/◌, min, ◌≡◌, refl, sym, ◌∙◌, inl, inr, String,
  Option, none, some, List, [], ◌∷◌, leb, ltb, arith, Option-cases,
}
use agent_force.Errors.{Exc}
use agent_force.Effects.{Result, ok, err}
use agent_force.Effects.Prog.{
  Run, Prog, returns, raises, out_of_fuel, pure, raise, call, lift, try_except,
}
use agent_force.Effects.Keeps.{
  CallKeeps, Keeps, Keeps-if, Keeps-try, Keeps-bind, Keeps-then, Keeps-lift_then,
}
use agent_force.Json.{Json, Fields}
use agent_force.Messages.{
  LlmResponse, ToolUseBlock, StopReason, tool_use, end_turn, max_tokens, stop_sequence, pause_turn,
  refusal,
}
use agent_force.State.{RunLimits}
use agent_force.Retry.{delay_for, random_steps}
use agent_force.Tools.Spec.{ToolSpec, EffectClass, ExecutionMode, inline, durable, validate_input}
use agent_force.Tools.Registry.{Registry, lookup}
use agent_force.Idempotency.{
  InvocationAction, execute, replay, re_execute, review, InvocationDecision, InvocationOutcome,
}
use agent_force.Ports.{Request, ToolLedger, TaskQueue}
use agent_force.Execution.{
  Caught, declared, uncaught, crashed, caught, truncate, settle_error, settle, run_handler, act,
  execute_invocation, crash_detail, review_reason,
}
use agent_force.Execution.Untouched.{execute_invocation-Keeps as invocation-Keeps}
use agent_force.Loop.Deps.{Deps}
use agent_force.Loop.Blocks.{result_from, requested}
use agent_force.Loop.Dispatch.{
  poll, finished, poll_max, poll_min, execute_durable, execute_inline, execute_one, execute_all,
  enqueue_if_absent, key_of, find_tool, execute_found, after_lookup, not_executed, recoverable,
  bug_of,
}
use agent_force.Loop.Attempts.{
  Attempt, retryable, tools_of, in_block, within_timeout, timed_out, one_try, patience, back_off,
  charge, after_try, attempts, attempt_step,
}

-- The model, the tools, the ledger, the queue and the clock leave as it was what `P` says of the world.
pub record LeavesAlone {W : Type 0} (deps : Deps W) (P : W → Type 0) : Type 0 where
  pub asks : (request : Request) → CallKeeps P (deps.llm.complete request)
  pub runs_tool :
      (name : String) (spec : ToolSpec W) (payload : Json)
      → lookup deps.registry name ≡ ok spec
      → CallKeeps P (spec.handler payload)
  pub begins :
      (run_id step_idx : ℕ) (tool : String) (effect : EffectClass) (key : String)
      → CallKeeps P (deps.ledger.begin run_id step_idx tool effect key)
  pub looks_up : (key : String) → CallKeeps P (deps.ledger.lookup key)
  pub reviews : (key reason : String) → CallKeeps P (deps.ledger.needs_review key reason)
  pub completes :
      (key result : String) (is_error : Bool)
      → CallKeeps P (deps.ledger.complete key result is_error)
  pub enqueues :
      (queue : TaskQueue W) (run_id step_idx : ℕ) (name : String) (input : Fields) (key : String)
      → deps.queue ≡ some queue
      → CallKeeps P (queue.enqueue_tool run_id step_idx name input key)
  pub sleeps : (d : ℕ) → CallKeeps P (deps.clock.sleep d)
  pub reads : CallKeeps P deps.clock.loop_time
  pub draws : CallKeeps P deps.clock.random
  pub enters : (d : ℕ) (w : W) → P w → P (deps.clock.enter_timeout d w)
  pub leaves : (w : W) → P w → P (deps.clock.leave_timeout w)

module _ {W : Type 0} (deps : Deps W) (P : W → Type 0) (laws : LeavesAlone deps P) where
  pub execute_invocation-Keeps :
      (run_id step_idx : ℕ) (tool_name : String) (args : Fields) (key : String)
      → Keeps P (execute_invocation deps.registry deps.ledger run_id step_idx tool_name args key)
  execute_invocation-Keeps run_id step_idx tool_name args key =
      invocation-Keeps deps.registry deps.ledger tool_name key P
        (record {
          runs_tool = laws.runs_tool;
          begins = λ r i tool effect. laws.begins r i tool effect key;
          reviews = laws.reviews key;
          completes = laws.completes key;
        })
        run_id step_idx args
