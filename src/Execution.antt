-- ===== src/Execution.antt =====
-- app/core/tools/execution.py: one tool call through the ledger, for the loop and for a worker.
pub mod Once
pub mod Untouched
pub mod Later
pub mod Ends
pub mod Replay
pub mod Review
use agent_force.Prelude.{ℕ, true, false, String, some, ltb, if◌then◌else◌}
use agent_force.Prelude.Text.{◌&◌, take_chars, repr, show_nat, count}
use agent_force.Errors.{Exc, tool_execution_failed, tool_crashed, cancelled, str, class_name}
use agent_force.Effects.{Result, ok, err}
use agent_force.Effects.Prog.{Prog, pure, raise, call, lift, ◌>>=◌, ◌>>◌}
use agent_force.Json.{Json, Fields}
use agent_force.Tools.Spec.{ToolSpec, validate_input}
use agent_force.Tools.Registry.{Registry, lookup}
use agent_force.Idempotency.{
  succeeded, failed, needs_review, execute, replay, re_execute, review, InvocationDecision,
  InvocationOutcome,
}
use agent_force.Ports.{ToolLedger}

abbrev pub max_tool_result_chars : ℕ
max_tool_result_chars = 8000

unfoldable pub truncate : String → String
unfolding take_chars
truncate output =
    if ltb max_tool_result_chars (count output)
    then take_chars max_tool_result_chars output
      & "\n[truncated: output exceeded "
      & show_nat max_tool_result_chars
      & " characters]"
    else output

-- Which `except` clause takes an exception of the handler. `CancelledError` is no `Exception`, so
-- neither does.
pub data Caught : Type 0 where
  declared : String → Caught
  uncaught : Caught
  crashed : Exc → Caught

unfoldable pub caught : Exc → Caught
caught (tool_execution_failed m) = declared m
caught cancelled = uncaught
caught e = crashed e

abbrev pub review_reason : String → String
review_reason tool_name =
    "Tool "
    & repr tool_name
    & " is UNSAFE and a previous attempt was interrupted mid-flight. "
    & "Replaying it could double its effect."

abbrev pub crash_detail : Exc → String
crash_detail e = "A tool raised " & class_name e & ": " & str e

module _ {W : Type 0} (ledger : ToolLedger W) (tool_name key : String) where
  unfoldable pub settle_error : Exc → Caught → Prog W InvocationOutcome
  settle_error e (declared m) = do
    call (ledger.complete key m true)
    pure (record { status = failed; result = some m; is_error = true })
  settle_error e uncaught = raise e
  settle_error e (crashed cause) = do
    call (ledger.complete key (crash_detail cause) true)
    raise (tool_crashed tool_name cause)

  unfoldable pub settle : Result String → Prog W InvocationOutcome
  unfolding settle_error truncate caught
  settle (ok output) = do
    let kept = truncate output
    call (ledger.complete key kept false)
    pure (record { status = succeeded; result = some kept; is_error = false })
  settle (err e) = settle_error e (caught e)

  -- `await spec.handler(payload)`, and what follows it.
  unfoldable pub run_handler : ToolSpec W → Json → Prog W InvocationOutcome
  unfolding settle
  run_handler spec payload w = let (r, w') = spec.handler payload w in settle r w'

  -- The `match decision.action`.
  unfoldable pub act : ToolSpec W → Json → InvocationDecision → Prog W InvocationOutcome
  unfolding run_handler
  act spec payload d = elim d.action [
    | replay ↦ pure (record {
      status = if d.is_error then failed else succeeded;
      result = d.result;
      is_error = d.is_error;
    })
    | review ↦ (do
      call (ledger.needs_review key (review_reason tool_name))
      pure (record {
        status = needs_review;
        result = some (review_reason tool_name);
        is_error = true;
      }))
    | execute ↦ run_handler spec payload
    | re_execute ↦ run_handler spec payload
  ]

unfoldable pub execute_invocation :
    {W : Type 0}
    → Registry W
    → ToolLedger W
    → ℕ
    → ℕ
    → String
    → Fields
    → String
    → Prog W InvocationOutcome
unfolding act lookup validate_input
execute_invocation registry ledger run_id step_idx tool_name args key = do
  spec ← lift (lookup registry tool_name)
  payload ← lift (validate_input spec args)
  d ← call (ledger.begin run_id step_idx tool_name spec.effect_class key)
  act ledger tool_name key spec payload d
