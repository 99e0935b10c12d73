-- ===== src/Tests/Runs.antt =====
-- A run of the loop with a model that calls a tool and then answers.
use agent_force.Prelude.{
  ℕ, zero, suc, ◌+◌, ◌≡◌, ◌≢◌, refl, true, false, none, some, List, [], ◌∷◌, nat_Eq, string_Eq,
  arith,
}
use agent_force.Errors.{tool_not_found, str}
use agent_force.Tools.Registry.{names}
use agent_force.Loop.Blocks.{error_result}
use agent_force.Effects.{ok}
use agent_force.Effects.Prog.{returns, out_of_fuel}
use agent_force.Json.{end}
use agent_force.Messages.{
  user, assistant, tool_result_block, LlmResponse, text_block, tool_use_block, end_turn, tool_use,
  ToolUseBlock, ToolResultBlock, Usage,
}
use agent_force.State.{RunOutcome, RunRecord, StepRecord, ToolCallRecord, completed, running}
use agent_force.Retry.{default_backoff}
use agent_force.Ports.{LlmClient, Clock, Request}
use agent_force.World.{World}
use agent_force.Ledger.Memory.{begin, complete}
use agent_force.Ledger.Port.{ledger_port}
use agent_force.Store.Port.{store_port}
use agent_force.Store.Memory.{create, claim, commit_step, renew, finish}
use agent_force.Store.Records.{new_record, empty_store}
use agent_force.Loop.Deps.{Deps}
use agent_force.Loop.Dispatch.{execute_all}
use agent_force.Loop.Drive.{run}
use agent_force.Loop.Termination.{TimePasses}
use agent_force.Loop.Rounds.{run-ends}
use agent_force.Loop.Attempts.{Attempt, attempt_step}
use agent_force.Prelude.Int.{pos}
use agent_force.Messages.{low}
use agent_force.State.{default_limits}
use agent_force.Loop.Answers.{AnswersAll, execute_all-AnswersAll}
use agent_force.Tests.Fixtures.{tools, world, question}

abbrev pub tokens : Usage
tokens = record {
  input_tokens = 5;
  output_tokens = 3;
  cache_creation_input_tokens = 0;
  cache_read_input_tokens = 0;
}

abbrev pub call_of_send : LlmResponse
call_of_send = record {
  stop_reason = tool_use;
  content = tool_use_block "t1" "send" end ∷ [];
  usage = tokens;
  model = "m";
  stop_details = none;
}

abbrev pub final_answer : LlmResponse
final_answer = record {
  stop_reason = end_turn;
  content = text_block "done" ∷ [];
  usage = tokens;
  model = "m";
  stop_details = none;
}

-- It answers once a tool has run.
abbrev pub replies : ℕ → LlmResponse
replies zero = call_of_send
replies (suc n) = final_answer

abbrev pub model : LlmClient (World ℕ)
model = record { complete = λ request w. (ok (replies w.env), w) }

abbrev pub clock : Clock (World ℕ)
clock = record {
  sleep = λ d w. (ok tt, record w { now = w.now + d });
  loop_time = λ w. (ok w.now, w);
  random = λ w. (ok 0, w);
  enter_timeout = λ d w. w;
  leave_timeout = λ w. w;
}

abbrev pub deps : Deps (World ℕ)
deps = record {
  llm = model;
  registry = tools;
  store = store_port;
  ledger = ledger_port;
  clock = clock;
  load_prompt = λ name version. ok "You answer.";
  queue = none;
  backoff = default_backoff;
  lease_ttl = 30;
  sha256 = λ text. "digest";
}

abbrev pub asked : World ℕ
asked = record world { store = (create question 7 empty_store).1 }

clock-TimePasses : TimePasses (World ℕ) clock ledger_port
clock-TimePasses = record {
  time = λ w. w.now;
  reads = λ w. refl;
  sleeps = λ d w slept. omega arith;
  looks_up = λ key w. omega arith;
}

run-ends_example : (run deps 7 "a" asked).0 ≢ out_of_fuel
run-ends_example = run-ends deps 7 "a" clock-TimePasses asked

abbrev block : ToolUseBlock
block = record { id = "t1"; name = "send"; input = end }

abbrev unknown : ToolUseBlock
unknown = record { id = "t2"; name = "nothing"; input = end }

abbrev results : List ToolResultBlock
results =
    record { tool_use_id = "t1"; content = "sent"; is_error = false }
    ∷ (error_result unknown (str (tool_not_found "nothing" (names tools)))).0
    ∷ []

abbrev records : List ToolCallRecord
records =
    record { tool_use_id = "t1"; name = "send"; ok = true; detail = none }
    ∷ (error_result unknown (str (tool_not_found "nothing" (names tools)))).1
    ∷ []

abbrev after_calls : World ℕ
after_calls = (execute_all deps 7 0 100000 (block ∷ unknown ∷ []) asked).1

executes :
    execute_all deps 7 0 100000 (block ∷ unknown ∷ []) asked
    ≡ (returns (results, records), after_calls)
unfolding execute_all begin complete
executes = refl

execute_all-AnswersAll_example : AnswersAll (block ∷ unknown ∷ []) results records
execute_all-AnswersAll_example =
    execute_all-AnswersAll deps 7 0 100000 (block ∷ unknown ∷ []) results records asked after_calls
      executes

abbrev pub claimed_run : RunRecord
claimed_run = record (new_record question 7) { status = running; lease_owner = some "a" }

abbrev pub claimed : World ℕ
claimed = record asked { store = (claim 7 "a" 30 0 asked.store).1 }

abbrev pub after_run : World ℕ
after_run = (run deps 7 "a" asked).1

abbrev pub steps : List StepRecord
steps =
    record {
      idx = 0;
      stop_reason = tool_use;
      usage = tokens;
      tool_calls = record { tool_use_id = "t1"; name = "send"; ok = true; detail = none } ∷ [];
      attempt = 1;
    }
    ∷ record { idx = 1; stop_reason = end_turn; usage = tokens; tool_calls = []; attempt = 1 }
    ∷ []

abbrev pub outcome : RunOutcome
outcome = record {
  status = completed;
  usage = record { steps = 2; input_tokens = 10; output_tokens = 6; cache_read_tokens = 0 };
  messages =
      record { role = user; content = text_block "" ∷ [] }
      ∷ record { role = assistant; content = call_of_send.content }
      ∷ record { role = user; content = tool_result_block "t1" "sent" false ∷ [] }
      ∷ record { role = assistant; content = final_answer.content }
      ∷ [];
  steps = steps;
  answer = some "done";
  error_code = none;
  error_message = none;
}

pub claims_run : deps.store.claim 7 "a" deps.lease_ttl asked ≡ (ok (some claimed_run), claimed)
unfolding create claim
claims_run = refl

-- The whole run: the tool is called, its result goes back to the model, and the answer is stored.
pub runs : run deps 7 "a" asked ≡ (returns outcome, after_run)
unfolding run begin complete claim create commit_step renew finish
runs = refl

-- The handler of the tool ran once.
runs_once : after_run.env ≡ 1
unfolding run begin complete claim create commit_step renew finish
runs_once = refl

abbrev request : Request
request = record { messages = []; system = ""; tools = []; max_tokens = pos 100; effort = low }

abbrev first_attempt : Attempt
first_attempt = record {
  response = call_of_send;
  results = record { tool_use_id = "t1"; content = "sent"; is_error = false } ∷ [];
  records = record { tool_use_id = "t1"; name = "send"; ok = true; detail = none } ∷ [];
  attempt = 1;
}

abbrev after_step : World ℕ
after_step = (attempt_step deps 7 0 request default_limits asked).1

attempts : attempt_step deps 7 0 request default_limits asked ≡ (returns first_attempt, after_step)
unfolding attempt_step begin complete
attempts = refl
