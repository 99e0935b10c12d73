-- ===== src/Llm/Fake.antt =====
-- `FakeLLM` of app/adapters/llm/fake_llm.py: a model that replays a script, and the script's builders.
use agent_force.Prelude.{
  ℕ, ◌-◌, Bool, String, Option, none, some, List, [], ◌∷◌, ◌++◌, map, length, get_elem?, ltb,
  if◌then◌else◌,
}
use agent_force.Prelude.Text.{◌&◌, show_nat}
use agent_force.Errors.{script_exhausted, other}
use agent_force.Effects.{Result, err}
use agent_force.Json.{Fields, string, end, field}
use agent_force.Messages.{
  ContentBlock, text_block, tool_use_block, opaque_block, LlmResponse, StopReason, end_turn,
  tool_use, refusal, max_tokens, Usage,
}
use agent_force.Ports.{Request}

abbrev pub default_model : String
default_model = "fake-model-1"

-- `RecordedCall` has the fields of a request.
abbrev pub RecordedCall : Type 0
RecordedCall = Request

-- An entry of the script is a response, or an exception to raise.
pub record FakeLlm : Type 0 where
  pub script : List (Result LlmResponse)
  pub calls : List RecordedCall

abbrev pub exhausted : ℕ → ℕ → String
exhausted made has =
    "The loop made "
    & show_nat made
    & " calls but the script has "
    & show_nat has
    & ". Either the loop is not terminating, or the script is missing a response."

-- `self.script[i]`
unfoldable pub entry : List (Result LlmResponse) → ℕ → Result LlmResponse
entry script i = elim (get_elem? script i) [
  | none ↦ err (other "IndexError" "list index out of range")
  | some outcome ↦ outcome
]

unfoldable pub complete : Request → FakeLlm → Result LlmResponse × FakeLlm
unfolding entry
complete request llm =
    let calls = llm.calls ++ request ∷ [] in
    (
      (if ltb (length llm.script) (length calls)
          then err (script_exhausted (exhausted (length calls) (length llm.script)))
          else entry llm.script (length calls - 1)),
      record llm { calls = calls },
    )

unfoldable pub usage_of : ℕ → ℕ → Usage
usage_of input_tokens output_tokens = record {
  input_tokens = input_tokens;
  output_tokens = output_tokens;
  cache_creation_input_tokens = 0;
  cache_read_input_tokens = 0;
}

unfoldable pub responds : StopReason → List ContentBlock → ℕ → ℕ → LlmResponse
unfolding usage_of
responds stop_reason content input_tokens output_tokens = record {
  stop_reason = stop_reason;
  content = content;
  usage = usage_of input_tokens output_tokens;
  model = default_model;
  stop_details = none;
}

unfoldable pub says : String → ℕ → ℕ → LlmResponse
unfolding responds
says text input_tokens output_tokens =
    responds end_turn (text_block text ∷ []) input_tokens output_tokens

-- The opaque block of a thought; what `OpaqueBlock.model_validate` keeps of it.
unfoldable pub thought : Option String → List ContentBlock
thought none = []
thought (some thinking) =
    opaque_block "thinking"
      (field "thinking" (string thinking) (field "signature" (string "sig-fake") end))
    ∷ []

unfoldable pub calls_tool : String → Fields → String → Option String → ℕ → ℕ → LlmResponse
unfolding thought responds
calls_tool name tool_input tool_use_id thinking input_tokens output_tokens =
    responds tool_use (thought thinking ++ tool_use_block tool_use_id name tool_input ∷ [])
      input_tokens output_tokens

-- `(name, input, tool_use_id)`
unfoldable pub calls_tools : List (String × Fields × String) → ℕ → ℕ → LlmResponse
unfolding responds
calls_tools requested input_tokens output_tokens =
    responds tool_use (map (λ r. tool_use_block r.2 r.0 r.1) requested) input_tokens output_tokens

unfoldable pub refuses : String → LlmResponse
unfolding responds
refuses category = record (responds refusal [] 100 0) {
  stop_details = some (record { kind = "refusal"; category = some category; explanation = none });
}

unfoldable pub truncated : Bool → LlmResponse
unfolding responds
truncated partial_tool_call =
    responds max_tokens
      (text_block "Let me work that out"
        ∷ (if partial_tool_call then tool_use_block "toolu_partial" "calculator" end ∷ [] else []))
      100 16000
