-- ===== src/Tests/Fixtures.antt =====
-- A world of the in-memory adapters whose environment counts the handlers that ran, and its tools.
use agent_force.Prelude.{ℕ, ◌+◌, none, some, List, [], ◌∷◌, string_Eq, arith}
use agent_force.Prelude.Dict.{get}
use agent_force.Errors.{validation_error}
use agent_force.Effects.{ok, err}
use agent_force.Json.{obj, end}
use agent_force.Messages.{low, Message, user, text_block, end_turn}
use agent_force.State.{NewRun, StepRecord, default_limits}
use agent_force.Tools.Spec.{InputModel, valid, ToolSpec, unsafe, read_only, inline}
use agent_force.Tools.Registry.{Registry, lookup}
use agent_force.World.{World}
use agent_force.Store.Records.{empty_store}
use agent_force.Ledger.Memory.{empty_ledger}
use agent_force.Ledger.Rows.{IsWellFormed}
use agent_force.Execution.Once.{KeepsLedger}

abbrev pub any_input : InputModel
any_input = record { model_json_schema = end; model_validate = λ raw. valid (obj raw) }

abbrev pub send : ToolSpec (World ℕ)
send = record {
  name = "send";
  description = "Sends a letter.";
  input_model = any_input;
  handler = λ payload w. (ok "sent", record w { env = w.env + 1 });
  effect_class = unsafe;
  execution = inline;
}

abbrev pub broken : ToolSpec (World ℕ)
broken = record {
  name = "broken";
  description = "Has a bug.";
  input_model = any_input;
  handler = λ payload w. (err (validation_error "bug"), record w { env = w.env + 1 });
  effect_class = read_only;
  execution = inline;
}

abbrev pub tools : Registry (World ℕ)
tools = record { tools = ("send", send) ∷ ("broken", broken) ∷ [] }

abbrev pub world : World ℕ
world = record { store = empty_store; ledger = empty_ledger; now = 0; env = 0 }

pub empty_ledger-IsWellFormed : IsWellFormed empty_ledger
unfolding get
empty_ledger-IsWellFormed = record { at_key = λ key row h. absurd (ground arith) }

pub tools-KeepsLedger : KeepsLedger ℕ tools
unfolding lookup get
tools-KeepsLedger = record { at_tool = λ name spec payload w h. ground arith }

abbrev pub question : NewRun
question = record {
  agent = "qa";
  input = end;
  limits = default_limits;
  effort = low;
  prompt_name = "qa";
  prompt_version = 1;
  model = "m";
  tenant_id = "t";
  parent_run_id = none;
  idempotency_key = some "k";
}

abbrev pub answer_step : StepRecord
answer_step = record {
  idx = 0;
  stop_reason = end_turn;
  usage = record {
    input_tokens = 5;
    output_tokens = 3;
    cache_creation_input_tokens = 0;
    cache_read_input_tokens = 0;
  };
  tool_calls = [];
  attempt = 1;
}

abbrev pub turn : List Message
turn = record { role = user; content = text_block "hello" ∷ [] } ∷ []
