-- ===== src/Tests/Calls.antt =====
-- Tool calls through the in-memory ledger.
use agent_force.Prelude.{ℕ, ◌≡◌, refl, false, some, string_Eq}
use agent_force.Prelude.Dict.{get}
use agent_force.Errors.{validation_error, tool_crashed}
use agent_force.Json.{end, obj}
use agent_force.Effects.Prog.{returns, raises}
use agent_force.Tools.Spec.{unsafe, validate_input}
use agent_force.Tools.Registry.{lookup}
use agent_force.Idempotency.{InvocationOutcome, succeeded}
use agent_force.Execution.{
  review_reason, execute_invocation, act, run_handler, settle, settle_error, caught, truncate,
}
use agent_force.Execution.Once.{execution, crashed_outcome}
use agent_force.Execution.Later.{at_once, and_other, execute_not_repeated}
use agent_force.Execution.Replay.{execute_after_crash}
use agent_force.Execution.Review.{unsafe_interrupted, review_outcome}
use agent_force.World.{World}
use agent_force.Ledger.Memory.{new_invocation, begin, complete, empty_ledger}
use agent_force.Ledger.Rows.{reviewed}
use agent_force.Tests.Fixtures.{send, tools, world, empty_ledger-IsWellFormed, tools-KeepsLedger}

abbrev sent : InvocationOutcome
sent = record { status = succeeded; result = some "sent"; is_error = false }

abbrev after_send : World ℕ
after_send = (execution tools 1 0 "send" end "key" world).1

abbrev after_bug : World ℕ
after_bug = (execution tools 1 0 "broken" end "key" world).1

sends : execution tools 1 0 "send" end "key" world ≡ (returns sent, after_send)
unfolding execute_invocation lookup get act run_handler settle truncate begin validate_input
    complete
sends = refl

-- The handler ran once.
sends_once : after_send.env ≡ 1
unfolding execute_invocation lookup get act run_handler settle begin validate_input complete
sends_once = refl

crashes :
    execution tools 1 0 "broken" end "key" world
    ≡ (raises (tool_crashed "broken" (validation_error "bug")), after_bug)
unfolding execute_invocation lookup get act run_handler settle settle_error caught begin
    validate_input complete
crashes = refl

-- The same tool is called under another key, and then once more under the first.
execute_not_repeated_example :
    let v = (execution tools 1 1 "send" end "other" after_send).1 in
    execution tools 1 0 "send" end "key" v ≡ (returns sent, v)
execute_not_repeated_example =
    execute_not_repeated tools 1 0 "send" end "key" world after_send
      (execution tools 1 1 "send" end "other" after_send).1 sent empty_ledger-IsWellFormed
      tools-KeepsLedger sends
      (and_other tools 1 1 "send" end "other" at_once tools-KeepsLedger refl)

execute_after_crash_example :
    execution tools 1 0 "broken" end "key" after_bug
    ≡ (returns (crashed_outcome (validation_error "bug")), after_bug)
execute_after_crash_example =
    execute_after_crash tools 1 0 "broken" end "key" world after_bug "broken"
      (validation_error "bug") empty_ledger-IsWellFormed tools-KeepsLedger crashes

-- The ledger that a worker leaves which died while it sent the letter.
abbrev interrupted : World ℕ
interrupted = record world { ledger = (begin unsafe "key" empty_ledger).1 }

unsafe_interrupted_example : execution tools 1 0 "send" end "key" interrupted ≡ (
  returns (review_outcome "send"),
  record interrupted {
    ledger = reviewed "key" (review_reason "send") (new_invocation unsafe) interrupted.ledger;
  },
)
unfolding lookup get begin validate_input
unsafe_interrupted_example =
    unsafe_interrupted tools 1 0 "send" end "key" interrupted send (obj end) (new_invocation unsafe)
      refl refl refl refl refl
