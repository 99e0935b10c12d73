-- ===== src/Tests/Queue.antt =====
-- Tasks that are delivered late or twice, over the in-memory ledger.
use agent_force.Prelude.{ℕ, ◌≡◌, refl, [], string_Eq}
use agent_force.Prelude.Dict.{get}
use agent_force.Effects.Prog.{returns}
use agent_force.Json.{end}
use agent_force.World.{World}
use agent_force.Ledger.Memory.{begin, complete}
use agent_force.Ledger.Port.{ledger_port}
use agent_force.Tools.Registry.{lookup}
use agent_force.Tools.Spec.{validate_input}
use agent_force.Execution.{execute_invocation, act, run_handler, settle, truncate}
use agent_force.Queue.Fake.{
  Dispatch, FakeTaskQueue, immediate, deferred, run_dispatch, run_all, enqueue_tool, deliver_all,
}
use agent_force.Queue.Deferral.{Alike, deferred_delivers}
use agent_force.Queue.Redelivery.{copies, redelivered_once}
use agent_force.Tests.Fixtures.{tools, world, empty_ledger-IsWellFormed, tools-KeepsLedger}

abbrev letter : Dispatch
letter = record { run_id = 1; step_idx = 0; tool_name = "send"; args = end; key = "key" }

abbrev queue : FakeTaskQueue (World ℕ)
queue = record {
  registry = tools;
  ledger = ledger_port;
  mode = immediate;
  dispatched = [];
  undelivered = [];
  crashes = [];
}

redelivered_once_example :
    run_all (copies 3 letter) (queue, world) ≡ (returns tt, (run_dispatch letter (queue, world)).1)
unfolding execute_invocation lookup get act run_handler settle truncate begin validate_input
    complete
redelivered_once_example =
    redelivered_once letter queue world 2 refl empty_ledger-IsWellFormed tools-KeepsLedger tt

deferred_delivers_example :
    ((enqueue_tool 1 0 "send" end "key" (record queue { mode = deferred }, world)).0 ≡ returns tt)
    × Alike
        (deliver_all
          (enqueue_tool 1 0 "send" end "key" (record queue { mode = deferred }, world)).1)
        (enqueue_tool 1 0 "send" end "key" (record queue { mode = immediate }, world))
deferred_delivers_example = deferred_delivers 1 0 "send" end "key" queue world refl
