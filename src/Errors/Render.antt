-- ===== src/Errors/Render.antt =====
-- The exceptions as values, and what `str(exc)` and `type(exc).__name__` give for each.
use agent_force.Prelude.{ℕ, ◌/◌, ◌%◌, Bool, String, List, [], ◌∷◌, ◌≡◌, refl, nat_eq, if◌then◌else◌}
use agent_force.Prelude.Text.{◌&◌, join, show_nat, repr}

-- Times are whole milliseconds; the text is that of the float of seconds.
show_seconds : ℕ → String
show_seconds ms =
    show_nat (ms / 1000)
    & "."
    & show_nat (ms % 1000 / 100)
    & (if nat_eq (ms % 100) 0
        then ""
        else show_nat (ms % 100 / 10) & (if nat_eq (ms % 10) 0 then "" else show_nat (ms % 10)))

pub data Exc : Type 0 where
  llm_transport_error llm_request_error : String → Exc
  invalid_tool_spec duplicate_tool_name : String → Exc
  tool_not_found : String → List String → Exc
  tool_input_invalid : String → String → Exc
  tool_execution_failed : String → Exc
  run_not_found step_already_committed run_not_resumable : String → Exc
  step_timeout : ℕ → ℕ → Exc
  retries_exhausted : String → String → Bool → Exc
  task_queue_unavailable queue_not_configured : String → Exc
  tool_crashed : String → Exc → Exc
  budget_exceeded : String → ℕ → ℕ → ℕ → Exc
  tool_in_flight : String → ℕ → Exc
  needs_review : String → Exc
  tool_bug : Exc → Exc
  -- `TimeoutError`, and the `CancelledError` that `asyncio.timeout` raises inside its block
  timeout_error cancelled : Exc
  key_error integrity_error : String → Exc
  validation_error : String → Exc
  script_exhausted prompt_not_found : String → Exc
  -- any other exception: its class and its text
  other : String → String → Exc

unfoldable pub class_name : Exc → String
class_name (llm_transport_error m) = "LLMTransportError"
class_name (llm_request_error m) = "LLMRequestError"
class_name (invalid_tool_spec m) = "InvalidToolSpec"
class_name (duplicate_tool_name m) = "DuplicateToolName"
class_name (tool_not_found n a) = "ToolNotFound"
class_name (tool_input_invalid n d) = "ToolInputInvalid"
class_name (tool_execution_failed m) = "ToolExecutionFailed"
class_name (run_not_found m) = "RunNotFound"
class_name (step_already_committed m) = "StepAlreadyCommitted"
class_name (run_not_resumable m) = "RunNotResumable"
class_name (step_timeout i s) = "StepTimeout"
class_name (retries_exhausted m l b) = "RetriesExhausted"
class_name (task_queue_unavailable m) = "TaskQueueUnavailable"
class_name (queue_not_configured m) = "QueueNotConfigured"
class_name (tool_crashed n c) = "ToolCrashed"
class_name (budget_exceeded n l o i) = "BudgetExceeded"
class_name (tool_in_flight n i) = "_ToolInFlight"
class_name (needs_review n) = "_NeedsReview"
class_name (tool_bug c) = "_ToolBug"
class_name timeout_error = "TimeoutError"
class_name cancelled = "CancelledError"
class_name (key_error m) = "KeyError"
class_name (integrity_error m) = "IntegrityError"
class_name (validation_error m) = "ValidationError"
class_name (script_exhausted m) = "ScriptExhausted"
class_name (prompt_not_found m) = "PromptNotFound"
class_name (other c m) = c

registered : List String → String
registered [] = "(none)"
registered (n ∷ ns) = join ", " (n ∷ ns)

unfoldable pub str : Exc → String
unfolding show_seconds class_name registered
str (llm_transport_error m) = m
str (llm_request_error m) = m
str (invalid_tool_spec m) = m
str (duplicate_tool_name m) = m
str (tool_not_found n available) =
    "No tool named " & repr n & ". Registered: " & registered available
str (tool_input_invalid n detail) = "Invalid arguments for tool " & repr n & ": " & detail
str (tool_execution_failed m) = m
str (run_not_found m) = m
str (step_already_committed m) = m
str (run_not_resumable m) = m
str (step_timeout i ms) = "Step " & show_nat i & " exceeded its budget of " & show_seconds ms & "s."
str (retries_exhausted m last_error run_budget_exhausted) = m
str (task_queue_unavailable m) = m
str (queue_not_configured m) = m
str (tool_crashed n cause) = "Tool " & repr n & " raised " & class_name cause & ": " & str cause
str (budget_exceeded name limit observed i) =
    "Run exceeded its "
    & name
    & " of "
    & show_nat limit
    & " at step "
    & show_nat i
    & " (observed "
    & show_nat observed
    & ")."
str (tool_in_flight n i) =
    "Durable tool "
    & repr n
    & " was still running when step "
    & show_nat i
    & " ran out of time to wait. Its result will be recorded; resume the run to collect it."
str (needs_review n) =
    "Tool "
    & repr n
    & " is UNSAFE and was interrupted mid-flight. "
    & "Replaying it could double its effect, so the run stops for review."
str (tool_bug cause) = "A tool raised " & class_name cause & ": " & str cause
str timeout_error = ""
str cancelled = ""
str (key_error m) = m
str (integrity_error m) = m
str (validation_error m) = m
str (script_exhausted m) = m
str (prompt_not_found m) = m
str (other c m) = m

step_timeout_text : str (step_timeout 2 60050) ≡ "Step 2 exceeded its budget of 60.05s."
unfolding str show_nat
step_timeout_text = refl
