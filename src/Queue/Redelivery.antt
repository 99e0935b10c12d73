-- ===== src/Queue/Redelivery.antt =====
-- A task may be delivered more than once: app/adapters/queue/fake_task_queue.py and
-- app/workers/tasks.py.
use agent_force.Prelude.{ℕ, zero, suc, ◌≡◌, refl, sym, ap, ◌∙◌, String, List, [], ◌∷◌, ◌++◌}
use agent_force.Errors.{tool_crashed}
use agent_force.Effects.Prog.{Run, returns, raises, out_of_fuel}
use agent_force.Json.{Fields}
use agent_force.Tools.Registry.{Registry}
use agent_force.Idempotency.{InvocationOutcome}
use agent_force.World.{World}
use agent_force.Ledger.Port.{ledger_port}
use agent_force.Ledger.Rows.{IsWellFormed}
use agent_force.Execution.{execute_invocation}
use agent_force.Execution.Once.{KeepsLedger, execution, crashed_outcome}
use agent_force.Execution.Replay.{execute_again, execute_after_crash}
use agent_force.Queue.Fake.{
  Dispatch, FakeTaskQueue, QueueState, noted, note, after_run, run_dispatch, run_all,
}

-- The worker came to an end with the call: with an outcome, or with a crash of the tool.
abbrev pub IsAnswered : Run InvocationOutcome → Type 0
IsAnswered (returns o) = Unit
IsAnswered (raises (tool_crashed n c)) = Unit
IsAnswered (raises e) = ⊥
IsAnswered out_of_fuel = ⊥

abbrev pub copies : ℕ → Dispatch → List Dispatch
copies zero d = []
copies (suc n) d = d ∷ copies n d

module _ {E : Type 0} (registry : Registry (World E)) (run_id step_idx : ℕ) (tool_name : String)
    (args : Fields) (key : String) where
  attempt_again :
      (w w' : World E) (end : Run InvocationOutcome)
      → IsWellFormed w.ledger
      → KeepsLedger E registry
      → execution registry run_id step_idx tool_name args key w ≡ (end, w')
      → IsAnswered end
      → (o : InvocationOutcome) × (execution registry run_id step_idx tool_name args key w'
          ≡ (returns o, w'))
  attempt_again w w' (returns o) v k ran a =
      (o, execute_again registry run_id step_idx tool_name args key w w' o v k ran)
  attempt_again w w' (raises (tool_crashed n c)) v k ran a = (
    crashed_outcome c,
    execute_after_crash registry run_id step_idx tool_name args key w w' n c v k ran,
  )
  attempt_again w w' (raises e) v k ran a = absurd a
  attempt_again w w' out_of_fuel v k ran a = absurd a

module _ {E : Type 0} (d : Dispatch) (q : FakeTaskQueue (World E))
    (port : q.ledger ≡ ledger_port) where
  run_dispatch-on_port :
      (w : World E)
      → run_dispatch d (q, w)
        ≡ after_run d q (execution q.registry d.run_id d.step_idx d.tool_name d.args d.key w)
  unfolding run_dispatch
  run_dispatch-on_port w =
      ap
        (λ ledger.
          after_run d q
            (execute_invocation q.registry ledger d.run_id d.step_idx d.tool_name d.args d.key w))
        port

  idle_again :
      (w : World E) (o : InvocationOutcome)
      → execution q.registry d.run_id d.step_idx d.tool_name d.args d.key w ≡ (returns o, w)
      → run_dispatch d (q, w) ≡ (returns tt, (q, w))
  unfolding after_run
  idle_again w o h = run_dispatch-on_port w ∙ ap (after_run d q) h

  copies-idle :
      (n : ℕ) (w : World E)
      → run_dispatch d (q, w) ≡ (returns tt, (q, w))
      → run_all (copies n d) (q, w) ≡ (returns tt, (q, w))
  unfolding run_all
  copies-idle zero w h = refl
  copies-idle (suc n) w h = rw (h, run_all) (copies-idle n w h)

run_all-cons :
    {W : Type 0} (d : Dispatch) (ds : List Dispatch) (s s' : QueueState W)
    → run_dispatch d s ≡ (returns tt, s')
    → run_all (d ∷ ds) s ≡ run_all ds s'
unfolding run_all
run_all-cons d ds s s' h = rw (h, run_all) refl

-- What the first delivery does, and what the others find.
module _ {E : Type 0} (d : Dispatch) (q : FakeTaskQueue (World E)) (port : q.ledger ≡ ledger_port)
    (w w' : World E) (n : ℕ) where
  all_copies :
      (q' : FakeTaskQueue (World E)) (o : InvocationOutcome)
      → q'.ledger ≡ ledger_port
      → run_dispatch d (q, w) ≡ (returns tt, (q', w'))
      → execution q'.registry d.run_id d.step_idx d.tool_name d.args d.key w' ≡ (returns o, w')
      → run_all (copies (suc n) d) (q, w) ≡ (returns tt, (run_dispatch d (q, w)).1)
  all_copies q' o port' first again =
      run_all-cons d (copies n d) (q, w) (q', w') first
      ∙ copies-idle d q' port' n w' (idle_again d q' port' w' o again)
      ∙ ap (λ s. (returns tt, s.1)) (sym first)

  first_delivery :
      (end : Run InvocationOutcome)
      → execution q.registry d.run_id d.step_idx d.tool_name d.args d.key w ≡ (end, w')
      → IsAnswered end
      → (o : InvocationOutcome) × (execution q.registry d.run_id d.step_idx d.tool_name d.args d.key
            w'
          ≡ (returns o, w'))
      → run_all (copies (suc n) d) (q, w) ≡ (returns tt, (run_dispatch d (q, w)).1)
  unfolding after_run note noted
  first_delivery (returns o) ran a (p, again) =
      all_copies q p port (run_dispatch-on_port d q port w ∙ ap (after_run d q) ran) again
  first_delivery (raises (tool_crashed m c)) ran a (p, again) =
      all_copies (record q { crashes = q.crashes ++ tool_crashed m c ∷ [] }) p port
        (run_dispatch-on_port d q port w ∙ ap (after_run d q) ran) again
  first_delivery (raises e) ran a again = absurd a
  first_delivery out_of_fuel ran a again = absurd a

module _ {E : Type 0} (d : Dispatch) (q : FakeTaskQueue (World E)) (w : World E) where
  -- A task may be delivered again: with tools that do not write to a coherent ledger, delivering a
  -- task any number of times, where its call returns or crashes, leaves the queue and the world as
  -- delivering it once does.
  pub redelivered_once :
      (n : ℕ)
      → q.ledger ≡ ledger_port
      → IsWellFormed w.ledger
      → KeepsLedger E q.registry
      → IsAnswered (execution q.registry d.run_id d.step_idx d.tool_name d.args d.key w).0
      → run_all (copies (suc n) d) (q, w) ≡ (returns tt, (run_dispatch d (q, w)).1)
  redelivered_once n port v k a =
      let ran = execution q.registry d.run_id d.step_idx d.tool_name d.args d.key w in
      first_delivery d q port w ran.1 n ran.0 refl a (
        attempt_again q.registry d.run_id d.step_idx d.tool_name d.args d.key w ran.1 ran.0 v k refl
          a)
