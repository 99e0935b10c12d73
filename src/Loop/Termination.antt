-- ===== src/Loop/Termination.antt =====
-- The three loops end within the fuel that they are given.
use agent_force.Prelude.{
  ℕ, zero, suc, ◌+◌, ◌-◌, ◌*◌, min, ◌≤◌, ◌<◌, ◌≡◌, ◌≢◌, refl, inl, inr, String, Option, none, some,
  List, [], ◌∷◌, arith, leb, leb→gt, Bool-cases, Option-cases,
}
use agent_force.Effects.{ok}
use agent_force.Effects.Prog.{Run, returns, raises, out_of_fuel, call, lift, raise, try_except}
use agent_force.Effects.Ends.{
  Ends, Ends-pure, Ends-raise, Ends-call, Ends-bind, Ends-then, Ends-then_ok, Ends-lift_then,
  Ends-try, as_run-ends,
}
use agent_force.Idempotency.{InvocationOutcome}
use agent_force.Ports.{Clock, ToolLedger, TaskQueue}
use agent_force.Execution.{execute_invocation}
use agent_force.Loop.Deps.{Deps}
use agent_force.Loop.Dispatch.{
  poll, finished, poll_max, poll_min, execute_durable, execute_inline, execute_one, execute_all,
  enqueue_if_absent, key_of, find_tool, execute_found, after_lookup, not_executed, recoverable,
  bug_of,
}
use agent_force.Messages.{ToolUseBlock}
use agent_force.Tools.Spec.{ToolSpec, inline, durable, ExecutionMode, validate_input}
use agent_force.Tools.Registry.{lookup}
use agent_force.Execution.Ends.{execute_invocation-Ends}
use agent_force.Loop.Blocks.{result_from}

-- The event loop's clock: reading it changes nothing, a sleep that returns has passed at least the
-- time that was asked for, and no lookup in the ledger turns the clock back.
pub record TimePasses (W : Type 0) (clock : Clock W) (ledger : ToolLedger W) : Type 0 where
  pub time : W → ℕ
  pub reads : (w : W) → clock.loop_time w ≡ (ok (time w), w)
  pub sleeps : (d : ℕ) (w : W) → (clock.sleep d w).0 ≡ ok tt → time w + d ≤ time (clock.sleep d w).1
  pub looks_up : (key : String) (w : W) → time w ≤ time (ledger.lookup key w).1

module _ {W : Type 0} (deps : Deps W) (run_id step_idx deadline : ℕ)
    (laws : TimePasses W deps.clock deps.ledger) where
  open laws use {time}

  -- From a positive interval, with a round of fuel for every tick that is left and one more.
  poll-Ends :
      (fuel : ℕ) (name key : String) (interval : ℕ) (outcome : Option InvocationOutcome) (w : W)
      → 0 < interval
      → deadline < fuel + time w
      → 0 < fuel
      → Ends (poll deps run_id step_idx deadline fuel name key interval outcome w)
  unfolding poll
  poll-Ends zero name key interval outcome w p enough pos = absurd (omega arith)
  poll-Ends (suc fuel) name key interval outcome w p enough pos =
      elim (Option-cases (finished outcome)) [
        | inr (o, e) ↦ rw (e, poll) (Ends-pure o w)
        | inl e ↦
            rw (e, poll)
              (rw (laws.reads w) (elim (Bool-cases (leb deadline (time w))) [
                | inl passed ↦ rw passed (Ends-raise _ w)
                | inr left ↦ rw left (
                    Ends-then_ok (deps.clock.sleep pause) _ w λ _ slept.
                      Ends-bind (call (deps.ledger.lookup key)) _ w'
                        (Ends-call (deps.ledger.lookup key) w')
                        λ o.
                          poll-Ends fuel name key (min (interval * 2) poll_max) o
                            (deps.ledger.lookup key w').1 (omega arith)
                            (omega (
                              arith,
                              laws.sleeps pause w slept,
                              laws.looks_up key w',
                              leb→gt deadline (time w) left,
                            ))
                            (omega (arith, leb→gt deadline (time w) left)))
              ]))
      ]
    where
      pause : ℕ
      pause = min interval (deadline - time w)

      w' : W
      w' = (deps.clock.sleep pause w).1

  durable_with-Ends :
      (queue : TaskQueue W) (block : ToolUseBlock) (spec : ToolSpec W) (w : W)
      → deps.queue ≡ some queue
      → Ends (execute_durable deps run_id step_idx deadline block spec w)
  unfolding execute_durable
  durable_with-Ends queue block spec w e =
      rw (e, execute_durable)
        (Ends-then (deps.ledger.lookup key) _ w λ outcome.
          Ends-bind (enqueue_if_absent deps run_id step_idx deadline queue block outcome) _ _
            (enqueue-Ends outcome _)
            λ _.
              Ends-bind
                (poll deps run_id step_idx deadline (suc deadline) block.name key poll_min outcome)
                _ _
                (poll-Ends (suc deadline) block.name key poll_min outcome _ (omega arith)
                  (omega arith) (omega arith))
                λ o. as_run-ends (result_from block o))
    where
      key : String
      key = key_of deps run_id step_idx deadline block

      enqueue-Ends :
          (o : Option InvocationOutcome) (w : W)
          → Ends (enqueue_if_absent deps run_id step_idx deadline queue block o w)
      enqueue-Ends none w =
          unfold enqueue_if_absent in
          Ends-call (queue.enqueue_tool run_id step_idx block.name block.input key) w
      enqueue-Ends (some o) w = λ h. cc

  execute_durable-Ends :
      (block : ToolUseBlock) (spec : ToolSpec W) (w : W)
      → Ends (execute_durable deps run_id step_idx deadline block spec w)
  unfolding execute_durable
  execute_durable-Ends block spec w = elim (Option-cases deps.queue) [
    | inl e ↦ rw (e, execute_durable) (Ends-raise _ w)
    | inr (queue, e) ↦ durable_with-Ends queue block spec w e
  ]

  execute_inline-Ends :
      (block : ToolUseBlock) (w : W) → Ends (execute_inline deps run_id step_idx deadline block w)
  unfolding execute_inline
  execute_inline-Ends block w =
      Ends-bind
        (try_except
          (execute_invocation deps.registry deps.ledger run_id step_idx block.name block.input
            (key_of deps run_id step_idx deadline block))
          (λ e. raise (bug_of e)))
        (λ o. lift (result_from block o)) w
        (Ends-try
          (execute_invocation deps.registry deps.ledger run_id step_idx block.name block.input
            (key_of deps run_id step_idx deadline block))
          (λ e. raise (bug_of e)) w
          (execute_invocation-Ends deps.registry deps.ledger run_id step_idx block.name block.input
            (key_of deps run_id step_idx deadline block) w)
          (λ e h. cc))
        λ o. as_run-ends (result_from block o)

  execute_found-Ends :
      (block : ToolUseBlock) (spec : ToolSpec W) (w : W) (mode : ExecutionMode)
      → spec.execution ≡ mode
      → Ends (execute_found deps run_id step_idx deadline block spec w)
  unfolding execute_found
  execute_found-Ends block spec w durable e =
      rw (e, execute_found) (execute_durable-Ends block spec w)
  execute_found-Ends block spec w inline e = rw (e, execute_found) (execute_inline-Ends block w)

  after_lookup-Ends :
      (block : ToolUseBlock) (r : Run (ToolSpec W)) (w : W)
      → r ≢ out_of_fuel
      → Ends (after_lookup deps run_id step_idx deadline block r w)
  unfolding after_lookup
  after_lookup-Ends block (returns spec) w h = execute_found-Ends block spec w spec.execution refl
  after_lookup-Ends block (raises e) w h =
      unfold not_executed in
      elim (Option-cases (recoverable e)) [
        | inl q ↦ rw (q, not_executed) (λ k. cc)
        | inr (detail, q) ↦ rw (q, not_executed) (λ k. cc)
      ]
  after_lookup-Ends block out_of_fuel w h = absurd (h refl)

  find_tool-Ends :
      (block : ToolUseBlock) (w : W) → Ends (find_tool deps run_id step_idx deadline block w)
  unfolding find_tool
  find_tool-Ends block w =
      Ends-lift_then (lookup deps.registry block.name) _ w
        λ spec. Ends-lift_then (validate_input spec block.input) _ w (λ payload h. cc)

  execute_one-Ends :
      (block : ToolUseBlock) (w : W) → Ends (execute_one deps run_id step_idx deadline block w)
  unfolding execute_one
  execute_one-Ends block w =
      after_lookup-Ends block (find_tool deps run_id step_idx deadline block w).0
        (find_tool deps run_id step_idx deadline block w).1 (find_tool-Ends block w)

  pub execute_all-Ends :
      (blocks : List ToolUseBlock) (w : W)
      → Ends (execute_all deps run_id step_idx deadline blocks w)
  unfolding execute_all
  execute_all-Ends [] w = λ h. cc
  execute_all-Ends (block ∷ blocks) w =
      Ends-bind (execute_one deps run_id step_idx deadline block) _ w (execute_one-Ends block w)
        λ one.
          Ends-bind (execute_all deps run_id step_idx deadline blocks) _ _
            (execute_all-Ends blocks _) λ rest h. cc
