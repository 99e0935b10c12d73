-- ===== src/Store/Postgres/Records.antt =====
-- The rows that the store writes, and the record that it reads back: `_to_record` of
-- app/adapters/db/run_store.py with its helpers.
use agent_force.Prelude.{ℕ, Bool, String, Option, none, some, List, [], ◌∷◌, map, suc}
use agent_force.Errors.{validation_error}
use agent_force.Effects.{Result, ok, err, ◌>>=◌}
use agent_force.Json.{Json, null, bool, string, Fields, end, field, field?}
use agent_force.Messages.{Message}
use agent_force.Messages.Wire.{required, as_str, blocks_to_wire, blocks_from_wire}
use agent_force.State.{
  NewRun, RunRecord, RunLimits, StepRecord, ToolCallRecord, queued, default_limits,
}
use agent_force.Store.Postgres.Models.{RunRow, StepRow, MessageRow}

abbrev pub optional : Option String → Json
optional none = null
optional (some t) = string t

-- `_tool_call_to_wire`
unfoldable pub tool_call_to_wire : ToolCallRecord → Fields
tool_call_to_wire call = field "tool_use_id" (string call.tool_use_id) (
    field "name" (string call.name)
      (field "ok" (bool call.ok) (field "detail" (optional call.detail) end)))

-- The values are not checked when they are read; what `_tool_call_to_wire` has not written has no
-- place in the record.
unfoldable pub as_bool : Json → Result Bool
as_bool (bool b) = ok b
as_bool _ = err (validation_error "Input should be a valid boolean")

unfoldable pub as_optional : Option Json → Result (Option String)
as_optional none = ok none
as_optional (some null) = ok none
as_optional (some (string t)) = ok (some t)
as_optional (some _) = err (validation_error "Input should be a valid string")

-- `_tool_call_from_wire`
unfoldable pub tool_call_from_wire : Fields → Result ToolCallRecord
unfolding required as_str as_bool as_optional field?
tool_call_from_wire raw = do
  i ← required raw "tool_use_id"
  n ← required raw "name"
  o ← required raw "ok"
  i' ← as_str i
  n' ← as_str n
  o' ← as_bool o
  d ← as_optional (field? raw "detail")
  ok (record { tool_use_id = i'; name = n'; ok = o'; detail = d })

unfoldable pub tool_calls_from_wire : List Fields → Result (List ToolCallRecord)
unfolding tool_call_from_wire
tool_calls_from_wire [] = ok []
tool_calls_from_wire (r ∷ rs) = do
  c ← tool_call_from_wire r
  cs ← tool_calls_from_wire rs
  ok (c ∷ cs)

-- The `Run(...)` of `create`, with the columns' defaults.
unfoldable pub new_row : NewRun → ℕ → RunRow
new_row spec now = record {
  parent_run_id = spec.parent_run_id;
  tenant_id = spec.tenant_id;
  agent = spec.agent;
  status = queued;
  input = spec.input;
  output = none;
  error_code = none;
  error_message = none;
  max_steps = spec.limits.max_steps;
  token_budget = spec.limits.token_budget;
  max_output_tokens = spec.limits.max_output_tokens;
  effort = spec.effort;
  prompt_name = spec.prompt_name;
  prompt_version = spec.prompt_version;
  model = spec.model;
  steps_taken = 0;
  input_tokens = 0;
  output_tokens = 0;
  cache_read_tokens = 0;
  retries_used = 0;
  lease_owner = none;
  lease_expires_at = none;
  idempotency_key = spec.idempotency_key;
  created_at = now;
  started_at = none;
  completed_at = none;
}

-- The `RunStep(...)` of `commit_step`.
unfoldable pub step_row : StepRecord → StepRow
unfolding tool_call_to_wire
step_row step = record {
  idx = step.idx;
  stop_reason = step.stop_reason;
  input_tokens = step.usage.input_tokens;
  output_tokens = step.usage.output_tokens;
  cache_read_tokens = step.usage.cache_read_input_tokens;
  attempt = step.attempt;
  tool_calls = map tool_call_to_wire step.tool_calls;
}

-- The `RunMessage(...)` of each message, in `for offset, message in enumerate(messages)`.
unfoldable pub message_rows : ℕ → ℕ → List Message → List MessageRow
unfolding blocks_to_wire
message_rows step_idx next_idx [] = []
message_rows step_idx next_idx (m ∷ ms) =
    (record {
      idx = next_idx;
      role = m.role;
      content = blocks_to_wire m.content;
      step_idx = some step_idx;
    })
    ∷ message_rows step_idx (suc next_idx) ms

-- The `StepRecord(...)` of `_to_record`.
unfoldable pub step_from_row : StepRow → Result StepRecord
unfolding tool_calls_from_wire
step_from_row row = do
  calls ← tool_calls_from_wire row.tool_calls
  ok (record {
    idx = row.idx;
    stop_reason = row.stop_reason;
    usage = record {
      input_tokens = row.input_tokens;
      output_tokens = row.output_tokens;
      cache_creation_input_tokens = 0;
      cache_read_input_tokens = row.cache_read_tokens;
    };
    tool_calls = calls;
    attempt = row.attempt;
  })

unfoldable pub steps_from_rows : List StepRow → Result (List StepRecord)
unfolding step_from_row
steps_from_rows [] = ok []
steps_from_rows (r ∷ rs) = do step ← step_from_row r; steps ← steps_from_rows rs; ok (step ∷ steps)

-- The `Message(...)` of `_to_record`.
unfoldable pub messages_from_rows : List MessageRow → Result (List Message)
unfolding blocks_from_wire
messages_from_rows [] = ok []
messages_from_rows (r ∷ rs) = do
  content ← blocks_from_wire r.content
  ms ← messages_from_rows rs
  ok ((record { role = r.role; content = content }) ∷ ms)

-- `(run.output or {}).get("answer")`
unfoldable pub answer_of : Option Fields → Option String
unfolding field?
answer_of none = none
answer_of (some output) = elim (field? output "answer") [ some (string t) ↦ some t | _ ↦ none ]

-- The limits that have no column take their defaults.
abbrev pub limits_of_row : RunRow → RunLimits
limits_of_row run = record default_limits {
  max_steps = run.max_steps;
  token_budget = run.token_budget;
  max_output_tokens = run.max_output_tokens;
}

abbrev pub record_of : ℕ → RunRow → List Message → List StepRecord → RunRecord
record_of id run messages steps = record {
  id = id;
  agent = run.agent;
  status = run.status;
  input = run.input;
  limits = limits_of_row run;
  effort = run.effort;
  prompt_name = run.prompt_name;
  prompt_version = run.prompt_version;
  model = run.model;
  usage = record {
    steps = run.steps_taken;
    input_tokens = run.input_tokens;
    output_tokens = run.output_tokens;
    cache_read_tokens = run.cache_read_tokens;
  };
  messages = messages;
  steps = steps;
  retries_used = run.retries_used;
  tenant_id = run.tenant_id;
  parent_run_id = run.parent_run_id;
  answer = answer_of run.output;
  error_code = run.error_code;
  error_message = run.error_message;
  lease_owner = run.lease_owner;
  lease_expires_at = run.lease_expires_at;
}

-- `_to_record`
unfoldable pub to_record : ℕ → RunRow → List StepRow → List MessageRow → Result RunRecord
unfolding messages_from_rows steps_from_rows answer_of
to_record id run steps messages = do
  ms ← messages_from_rows messages
  ss ← steps_from_rows steps
  ok (record_of id run ms ss)
