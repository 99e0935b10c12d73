-- ===== src/Loop/Turns.antt =====
-- The local variables of `run`, and what it reads off a record, a response and an exception.
use agent_force.Prelude.{
  Bool, true, false, String, Option, none, some, List, [], ◌∷◌, is_empty, if◌then◌else◌,
}
use agent_force.Prelude.Text.{◌&◌}
use agent_force.Errors.{
  Exc, step_already_committed, run_not_resumable, retries_exhausted, tool_in_flight, tool_bug, str,
}
use agent_force.Errors
use agent_force.Json.{Fields, field?, str_json}
use agent_force.Messages.{
  Message, user, text_block, StopReason, StopDetails, end_turn, max_tokens, stop_sequence, tool_use,
  pause_turn, refusal,
}
use agent_force.State.{
  RunStatus, paused, completed, failed, ErrorCode, upstream_refusal, upstream_truncated,
  tool_failed, step_failed, tool_pending, RunLimits, RunUsage, plus, StepRecord, ToolCallRecord,
  RunOutcome, RunRecord,
}
use agent_force.State

-- The local variables of `run`.
pub record LoopState : Type 0 where
  pub usage : RunUsage
  pub messages : List Message
  pub pending : List Message
  pub steps : List StepRecord

-- `str(record.input.get("query", ""))`
unfoldable pub query_text : Fields → String
unfolding str_json field?
query_text input = elim (field? input "query") [ none ↦ "" | some j ↦ str_json j ]

unfoldable pub opening : RunRecord → List Message
unfolding query_text
opening r = record { role = user; content = text_block (query_text r.input) ∷ [] } ∷ []

unfoldable pub conversation : RunRecord → List Message
unfolding opening
conversation r = if is_empty r.messages then opening r else r.messages

unfoldable pub initial : RunRecord → LoopState
unfolding conversation
initial r = record {
  usage = r.usage;
  messages = conversation r;
  pending = if is_empty r.messages then conversation r else [];
  steps = r.steps;
}

-- What the loop does about an exception of a step: which end it gives the run, if it catches it.
pub data Stop : Type 0 where
  fails pauses : ErrorCode → Stop
  escapes : Stop

unfoldable pub stop_for : Exc → Stop
stop_for (retries_exhausted m last_error true) = fails step_failed
stop_for (retries_exhausted m last_error false) = pauses step_failed
stop_for (tool_in_flight name step_idx) = pauses tool_pending
stop_for (Errors.needs_review name) = fails State.needs_review
stop_for (tool_bug cause) = fails tool_failed
stop_for e = escapes

stop_text : StopReason → String
stop_text pause_turn = "'pause_turn'"
stop_text e = "'max_tokens'"

-- f"{category}" of an optional text
unfoldable pub category_text : Option StopDetails → String
category_text none = "None"
category_text (some d) = elim d.category [ none ↦ "None" | some c ↦ c ]

abbrev pub ended : RunStatus → LoopState → ErrorCode → String → RunOutcome
ended status s code message = record {
  status = status;
  usage = s.usage;
  messages = s.messages;
  steps = s.steps;
  answer = none;
  error_code = some code;
  error_message = some message;
}

pub data Reading : Type 0 where
  refused truncated answered called : Reading

-- The order in which `stop_reason` and the tool calls are looked at.
unfoldable pub reading : StopReason → Bool → Reading
reading refusal no_calls = refused
reading max_tokens no_calls = truncated
reading pause_turn no_calls = truncated
reading tool_use true = truncated
reading tool_use false = called
reading end_turn no_calls = answered
reading stop_sequence no_calls = answered

unfoldable pub truncated_text : StopReason → String
unfolding stop_text
truncated_text tool_use = "The model signalled a tool call but emitted no tool_use block."
truncated_text r =
    "The model stopped with "
    & stop_text r
    & "; its output is incomplete and may contain a partial tool call."
