-- ===== src/Queue/Deferral.antt =====
-- A task that is delivered late, and one that runs at once: app/adapters/queue/fake_task_queue.py.
use agent_force.Prelude.{ℕ, ◌≡◌, refl, ap, ◌∙◌, String, [], ◌∷◌, ◌++◌, Option-cases, inl, inr}
use agent_force.Effects.Prog.{Run, returns, raises, out_of_fuel, continue, pure}
use agent_force.Json.{Fields}
use agent_force.Idempotency.{InvocationOutcome}
use agent_force.Execution.{execute_invocation}
use agent_force.Queue.Fake.{
  immediate, deferred, Dispatch, FakeTaskQueue, QueueState, noted, note, after_run, run_dispatch,
  run_all, accept, enqueue_tool, deliver_all,
}

continue-pure : {V : Type 0} (r : Run (Unit {0})) (w : V) → continue r (λ _. pure tt) w ≡ (r, w)
continue-pure (returns u) w = refl
continue-pure (raises e) w = refl
continue-pure out_of_fuel w = refl

module _ {W : Type 0} where
  run_all-one : (d : Dispatch) (s : QueueState W) → run_all (d ∷ []) s ≡ run_dispatch d s
  unfolding run_all
  run_all-one d s = continue-pure (run_dispatch d s).0 (run_dispatch d s).1

  -- Two deliveries that end alike, with the same effect but for the mode and what is undelivered.
  abbrev pub Alike : Run (Unit {0}) × QueueState W → Run (Unit {0}) × QueueState W → Type 0
  Alike (r, (p, v)) (r', (q, w)) =
      (r ≡ r') × (v ≡ w) × (p.crashes ≡ q.crashes) × (p.dispatched ≡ q.dispatched)

  after_run-Alike :
      (d : Dispatch) (p q : FakeTaskQueue W) (end : Run InvocationOutcome) (w : W)
      → p.crashes ≡ q.crashes
      → p.dispatched ≡ q.dispatched
      → Alike (after_run d p (end, w)) (after_run d q (end, w))
  unfolding after_run note
  after_run-Alike d p q (returns o) w c s = (refl, refl, c, s)
  after_run-Alike d p q out_of_fuel w c s = (refl, refl, c, s)
  after_run-Alike d p q (raises e) w c s = elim (Option-cases (noted d.tool_name e)) [
    | inl n ↦ rw (n, note) (refl, refl, c, s)
    | inr (x, n) ↦ rw (n, note) (refl, refl, ap (λ xs. xs ++ x ∷ []) c, s)
  ]

module _ {W : Type 0} (run_id step_idx : ℕ) (tool_name : String) (args : Fields) (key : String)
    (q : FakeTaskQueue W) (w : W) where
  -- A slow worker does what a prompt one does: a task that is queued on an empty queue and delivered
  -- later ends as one that runs at once, and leaves the same world, crashes and dispatches.
  pub deferred_delivers :
      q.undelivered ≡ []
      → let (queued, s) =
          enqueue_tool run_id step_idx tool_name args key (record q { mode = deferred }, w) in
        (queued ≡ returns tt)
        × Alike
            (deliver_all s)
            (enqueue_tool run_id step_idx tool_name args key (record q { mode = immediate }, w))
  unfolding enqueue_tool accept deliver_all run_dispatch
  deferred_delivers h =
      let d : Dispatch = record {
        run_id = run_id;
        step_idx = step_idx;
        tool_name = tool_name;
        args = args;
        key = key;
      } in
      let left : FakeTaskQueue W = record q {
        mode = deferred;
        dispatched = q.dispatched ++ d ∷ [];
        undelivered = [];
      } in
      let ran = execute_invocation q.registry q.ledger run_id step_idx tool_name args key w in
      let one : run_all (q.undelivered ++ d ∷ []) (left, w) ≡ run_dispatch d (left, w) =
        ap (λ ds. run_all (ds ++ d ∷ []) (left, w)) h ∙ run_all-one d (left, w) in
      (
        refl,
        rw one (
            after_run-Alike d left
              (record q { mode = immediate; dispatched = q.dispatched ++ d ∷ [] }) ran.0 ran.1 refl
              refl),
      )
