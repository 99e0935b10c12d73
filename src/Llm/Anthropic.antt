-- ===== src/Llm/Anthropic.antt =====
-- `AnthropicClient` of app/adapters/llm/anthropic_client.py. The SDK is given: `messages.create` as a
-- call, its exceptions and its response as data; a block of a response is what `model_dump` gives.
use agent_force.Prelude.{
  ℕ, String, Option, none, some, List, [], ◌∷◌, map, leb, str_eq, if◌then◌else◌,
}
use agent_force.Prelude.Int.{ℤ}
use agent_force.Prelude.Text.{◌&◌, repr, show_nat}
use agent_force.Errors.{Exc, llm_transport_error, llm_request_error}
use agent_force.Effects.{Result, ok, err, ◌>>=◌}
use agent_force.Effects.Prog.{Call}
use agent_force.Json.{string, obj, Fields, end, field, field?}
use agent_force.Messages.{
  ContentBlock, text_block, tool_use_block, Role, Effort, Message, LlmResponse, StopReason,
  end_turn, max_tokens, stop_sequence, tool_use, pause_turn, refusal, StopDetails, ToolSchema,
}
use agent_force.Messages.Wire.{required, as_str, as_dict, opaque_from_dict, blocks_to_wire}
use agent_force.Ports.{Request}

-- The SDK's exceptions that `complete` names, with their texts, and any other.
pub data SdkError : Type 0 where
  rate_limit_error : String → SdkError
  api_connection_error : String → SdkError
  api_status_error : ℕ → String → SdkError
  other_error : Exc → SdkError

pub record SdkUsage : Type 0 where
  pub input_tokens : ℕ
  pub output_tokens : ℕ
  pub cache_creation_input_tokens : Option ℕ
  pub cache_read_input_tokens : Option ℕ

pub record SdkResponse : Type 0 where
  pub content : List Fields
  pub stop_reason : Option String
  pub stop_details : Option StopDetails
  pub usage : SdkUsage
  pub model : String

pub data SdkAnswer : Type 0 where
  answered : SdkResponse → SdkAnswer
  failed : SdkError → SdkAnswer

pub record WireMessage : Type 0 where
  pub role : Role
  pub content : List Fields

-- The arguments of `messages.create` that vary; `thinking` is always adaptive.
pub record WireRequest : Type 0 where
  pub model : String
  pub max_tokens : ℤ
  pub system : List Fields
  pub messages : List WireMessage
  pub tools : List Fields
  pub effort : Effort

-- `_cached_system`
unfoldable pub cached_system : String → List Fields
cached_system system =
    field "type" (string "text") (
      field "text" (string system)
        (field "cache_control" (obj (field "type" (string "ephemeral") end)) end))
    ∷ []

-- `_to_wire_tool`
unfoldable pub to_wire_tool : ToolSchema → Fields
to_wire_tool tool = field "name" (string tool.name) (
    field "description" (string tool.description)
      (field "input_schema" (obj tool.input_schema) end))

-- `_to_wire_message`
unfoldable pub to_wire_message : Message → WireMessage
unfolding blocks_to_wire
to_wire_message m = record { role = m.role; content = blocks_to_wire m.content }

unfoldable pub to_wire_request : String → Request → WireRequest
unfolding cached_system to_wire_tool to_wire_message
to_wire_request model r = record {
  model = model;
  max_tokens = r.max_tokens;
  system = cached_system r.system;
  messages = map to_wire_message r.messages;
  tools = map to_wire_tool r.tools;
  effort = r.effort;
}

-- The `except` clauses of `complete`, in their order.
unfoldable pub translated_error : SdkError → Exc
translated_error (rate_limit_error text) = llm_transport_error ("Rate limited: " & text)
translated_error (api_connection_error text) = llm_transport_error ("Connection failed: " & text)
translated_error (api_status_error code text) =
    if leb 500 code
    then llm_transport_error ("Upstream " & show_nat code & ": " & text)
    else llm_request_error ("Request rejected (" & show_nat code & "): " & text)
translated_error (other_error e) = e

unfoldable pub structured : String → Fields → Result ContentBlock
unfolding required as_str as_dict opaque_from_dict
structured kind payload =
    if str_eq kind "text"
    then (do t ← required payload "text"; s ← as_str t; ok (text_block s))
    else if str_eq kind "tool_use"
    then (do
      i ← required payload "id"
      n ← required payload "name"
      d ← required payload "input"
      i' ← as_str i
      n' ← as_str n
      d' ← as_dict d
      ok (tool_use_block i' n' d'))
    else opaque_from_dict payload

-- One block of `_from_wire_response`.
unfoldable pub block_of : Fields → Result ContentBlock
unfolding structured field?
block_of payload = elim (field? payload "type") [
  | some (string kind) ↦ structured kind payload
  | _ ↦ opaque_from_dict payload
]

unfoldable pub blocks_of : List Fields → Result (List ContentBlock)
unfolding block_of
blocks_of [] = ok []
blocks_of (p ∷ ps) = do b ← block_of p; bs ← blocks_of ps; ok (b ∷ bs)

abbrev pub unrecognised : String → Exc
unrecognised shown = llm_request_error (
    "Unrecognised stop_reason " & shown
    & ". The loop branches on this field, so it must not be guessed at — add it to the StopReason literal deliberately.")

-- `_KNOWN_STOP_REASONS`
abbrev pub known_stop_reasons : List (String × StopReason)
known_stop_reasons =
    ("end_turn", end_turn)
    ∷ ("max_tokens", max_tokens)
    ∷ ("stop_sequence", stop_sequence)
    ∷ ("tool_use", tool_use)
    ∷ ("pause_turn", pause_turn)
    ∷ ("refusal", refusal)
    ∷ []

unfoldable pub known : String → List (String × StopReason) → Result StopReason
known value [] = err (unrecognised (repr value))
known value ((name, reason) ∷ rest) =
    let later = known value rest in if str_eq value name then ok reason else later

-- `_stop_reason`
unfoldable pub stop_reason_of : Option String → Result StopReason
unfolding known
stop_reason_of none = err (unrecognised "None")
stop_reason_of (some value) = known value known_stop_reasons

-- The details are read for a refusal only.
unfoldable pub details_of : SdkResponse → Option StopDetails
details_of raw = elim raw.stop_reason [
  | none ↦ none
  | some reason ↦ (if str_eq reason "refusal" then raw.stop_details else none)
]

-- `... or 0`
abbrev pub or_zero : Option ℕ → ℕ
or_zero none = 0
or_zero (some n) = n

-- `_from_wire_response`
unfoldable pub from_wire_response : SdkResponse → Result LlmResponse
unfolding blocks_of details_of stop_reason_of
from_wire_response raw = do
  content ← blocks_of raw.content
  reason ← stop_reason_of raw.stop_reason
  ok (record {
    stop_reason = reason;
    content = content;
    usage = record {
      input_tokens = raw.usage.input_tokens;
      output_tokens = raw.usage.output_tokens;
      cache_creation_input_tokens = or_zero raw.usage.cache_creation_input_tokens;
      cache_read_input_tokens = or_zero raw.usage.cache_read_input_tokens;
    };
    model = raw.model;
    stop_details = details_of raw;
  })

unfoldable pub response_of : SdkAnswer → Result LlmResponse
unfolding from_wire_response translated_error
response_of (answered raw) = from_wire_response raw
response_of (failed e) = err (translated_error e)

-- `AnthropicClient.complete`
unfoldable pub complete :
    {W : Type 0} → (WireRequest → W → SdkAnswer × W) → String → Request → Call W LlmResponse
unfolding to_wire_request response_of
complete create model request w =
    let (answer, w') = create (to_wire_request model request) w in (response_of answer, w')
