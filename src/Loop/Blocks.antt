-- ===== src/Loop/Blocks.antt =====
-- The blocks and records that the loop makes of a tool call, and the answer that it reads.
use agent_force.Prelude.{Bool, true, false, String, none, some, List, [], ◌∷◌, map}
use agent_force.Prelude.Text.{◌&◌}
use agent_force.Errors.{needs_review as review_raised}
use agent_force.Effects.{Result, ok, err}
use agent_force.Messages.{
  ContentBlock, text_block, tool_use_block, tool_result_block, ToolUseBlock, ToolResultBlock,
}
use agent_force.State.{ToolCallRecord}
use agent_force.Idempotency.{InvocationOutcome, needs_review}

abbrev pub CallResult : Type 0
CallResult = ToolResultBlock × ToolCallRecord

unfoldable pub ok_result : ToolUseBlock → String → CallResult
ok_result block output = (
  record { tool_use_id = block.id; content = output; is_error = false },
  record { tool_use_id = block.id; name = block.name; ok = true; detail = none },
)

unfoldable pub error_result : ToolUseBlock → String → CallResult
error_result block detail = (
  record { tool_use_id = block.id; content = detail; is_error = true },
  record { tool_use_id = block.id; name = block.name; ok = false; detail = some detail },
)

-- `outcome.result or ""`
unfoldable pub recorded : InvocationOutcome → String
recorded o = elim o.result [ none ↦ "" | some text ↦ text ]

unfoldable pub shown : Bool → ToolUseBlock → String → CallResult
unfolding ok_result error_result
shown true block text = error_result block text
shown false block text = ok_result block text

unfoldable pub result_from : ToolUseBlock → InvocationOutcome → Result CallResult
unfolding shown recorded
result_from block o = elim o.status [
  | needs_review ↦ err (review_raised block.name)
  | _ ↦ ok (shown o.is_error block (recorded o))
]

-- `[b for b in content if isinstance(b, ToolUseBlock)]`
unfoldable pub requested : List ContentBlock → List ToolUseBlock
requested [] = []
requested (tool_use_block i n d ∷ bs) = record { id = i; name = n; input = d } ∷ requested bs
requested (_ ∷ bs) = requested bs

-- A list of results as the content of a message.
unfoldable pub result_blocks : List ToolResultBlock → List ContentBlock
result_blocks rs = map (λ r. tool_result_block r.tool_use_id r.content r.is_error) rs

unfoldable pub answer_from : List ContentBlock → String
answer_from [] = ""
answer_from (text_block t ∷ bs) = t & answer_from bs
answer_from (_ ∷ bs) = answer_from bs
