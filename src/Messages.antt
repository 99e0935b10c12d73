-- ===== src/Messages.antt =====
-- app/core/runtime/messages.py: the conversation's blocks, and their wire form.
pub mod Wire
pub mod RoundTrip
use agent_force.Prelude.{ℕ, Bool, String, Option, List}
use agent_force.Json.{Fields}

pub data Role : Type 0 where
  user assistant : Role

pub data Effort : Type 0 where
  low medium high xhigh max : Effort

pub data StopReason : Type 0 where
  end_turn max_tokens stop_sequence tool_use pause_turn refusal : StopReason

-- `opaque` holds the `type` and the extra fields, in the order in which they arrived.
pub data ContentBlock : Type 0 where
  text_block : String → ContentBlock
  tool_use_block : String → String → Fields → ContentBlock
  tool_result_block : String → String → Bool → ContentBlock
  opaque_block : String → Fields → ContentBlock

pub record ToolUseBlock : Type 0 where
  pub id : String
  pub name : String
  pub input : Fields

pub record ToolResultBlock : Type 0 where
  pub tool_use_id : String
  pub content : String
  pub is_error : Bool

pub record Message : Type 0 where
  pub role : Role
  pub content : List ContentBlock

pub record Usage : Type 0 where
  pub input_tokens : ℕ
  pub output_tokens : ℕ
  pub cache_creation_input_tokens : ℕ
  pub cache_read_input_tokens : ℕ

pub record StopDetails : Type 0 where
  pub kind : String
  pub category : Option String
  pub explanation : Option String

pub record LlmResponse : Type 0 where
  pub stop_reason : StopReason
  pub content : List ContentBlock
  pub usage : Usage
  pub model : String
  pub stop_details : Option StopDetails

pub record ToolSchema : Type 0 where
  pub name : String
  pub description : String
  pub input_schema : Fields
