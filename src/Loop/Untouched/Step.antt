-- ===== src/Loop/Untouched/Step.antt =====
-- What the attempts of a step leave as it was: all that the loop's collaborators leave, and the charge
-- for a retry.
use agent_force.Prelude.{
  ℕ, zero, suc, ◌+◌, ◌*◌, ◌-◌, min, ◌≡◌, refl, inl, inr, String, Option, none, some, List, [], ◌∷◌,
  leb, ltb, Option-cases,
}
use agent_force.Errors.{Exc}
use agent_force.Effects.Prog.{Run, Prog, returns, raises, out_of_fuel, raise, try_except}
use agent_force.Effects.Keeps.{
  CallKeeps, Keeps, Keeps-if, Keeps-try, Keeps-bind, Keeps-then, Keeps-lift_then,
}
use agent_force.Messages.{
  LlmResponse, ToolUseBlock, StopReason, tool_use, end_turn, max_tokens, stop_sequence, pause_turn,
  refusal,
}
use agent_force.State.{RunLimits}
use agent_force.Tools.Spec.{ToolSpec, ExecutionMode, inline, durable, validate_input}
use agent_force.Tools.Registry.{lookup}
use agent_force.Idempotency.{InvocationOutcome}
use agent_force.Ports.{Request, TaskQueue}
use agent_force.Execution.{execute_invocation}
use agent_force.Loop.Deps.{Deps}
use agent_force.Loop.Blocks.{requested}
use agent_force.Loop.Dispatch.{
  poll, finished, poll_max, poll_min, execute_durable, execute_inline, execute_one, execute_all,
  enqueue_if_absent, key_of, find_tool, execute_found, after_lookup, not_executed, recoverable,
  bug_of,
}
use agent_force.Loop.Attempts.{
  Attempt, retryable, tools_of, in_block, within_timeout, one_try, patience, back_off, charge,
  after_try, attempts, attempt_step,
}
use agent_force.Loop.Untouched.{LeavesAlone, execute_invocation-Keeps}

module _ {W : Type 0} (deps : Deps W) (P : W → Type 0) (laws : LeavesAlone deps P) where
  module _ (run_id step_idx deadline : ℕ) where
    poll-Keeps :
        (fuel : ℕ) (name key : String) (interval : ℕ) (outcome : Option InvocationOutcome)
        → Keeps P (poll deps run_id step_idx deadline fuel name key interval outcome)
    unfolding poll
    poll-Keeps zero name key interval outcome w p = p
    poll-Keeps (suc fuel) name key interval outcome w p = elim (Option-cases (finished outcome)) [
      | inr (o, e) ↦ rw (e, poll) p
      | inl e ↦
          rw (e, poll)
            (Keeps-then P deps.clock.loop_time _ laws.reads
              (λ now.
                Keeps-if P (leb deadline now) _ _ (λ w p. p)
                  (Keeps-then P (deps.clock.sleep (min interval (deadline - now))) _
                    (laws.sleeps (min interval (deadline - now)))
                    λ _.
                      Keeps-then P (deps.ledger.lookup key) _ (laws.looks_up key)
                        λ o. poll-Keeps fuel name key (min (interval * 2) poll_max) o))
              w p)
    ]

    enqueue_if_absent-Keeps :
        (queue : TaskQueue W) (block : ToolUseBlock) (o : Option InvocationOutcome)
        → deps.queue ≡ some queue
        → Keeps P (enqueue_if_absent deps run_id step_idx deadline queue block o)
    unfolding enqueue_if_absent
    enqueue_if_absent-Keeps queue block none h w p =
        laws.enqueues queue run_id step_idx block.name block.input
          (key_of deps run_id step_idx deadline block) h w p
    enqueue_if_absent-Keeps queue block (some o) h w p = p

    execute_durable-Keeps :
        (block : ToolUseBlock) (spec : ToolSpec W)
        → Keeps P (execute_durable deps run_id step_idx deadline block spec)
    unfolding execute_durable
    execute_durable-Keeps block spec w p = elim (Option-cases deps.queue) [
      | inl e ↦ rw (e, execute_durable) p
      | inr (queue, e) ↦
          let key = key_of deps run_id step_idx deadline block in
          rw (e, execute_durable)
            (Keeps-then P (deps.ledger.lookup key) _ (laws.looks_up key)
              (λ outcome.
                Keeps-bind P (enqueue_if_absent deps run_id step_idx deadline queue block outcome) _
                  (enqueue_if_absent-Keeps queue block outcome e)
                  λ _.
                    Keeps-bind P
                      (poll deps run_id step_idx deadline (suc deadline) block.name key poll_min
                        outcome)
                      _ (poll-Keeps (suc deadline) block.name key poll_min outcome) λ o w p. p)
              w p)
    ]

    execute_inline-Keeps :
        (block : ToolUseBlock) → Keeps P (execute_inline deps run_id step_idx deadline block)
    unfolding execute_inline
    execute_inline-Keeps block =
        let key = key_of deps run_id step_idx deadline block in
        let executes =
          execute_invocation deps.registry deps.ledger run_id step_idx block.name block.input key in
        Keeps-bind P (try_except executes (λ e. raise (bug_of e))) _
          (Keeps-try P executes (λ e. raise (bug_of e))
            (execute_invocation-Keeps deps P laws run_id step_idx block.name block.input key)
            λ e w p. p)
          λ o w p. p

    execute_found-Keeps :
        (block : ToolUseBlock) (spec : ToolSpec W) (mode : ExecutionMode)
        → spec.execution ≡ mode
        → Keeps P (execute_found deps run_id step_idx deadline block spec)
    unfolding execute_found
    execute_found-Keeps block spec durable e w p =
        rw (e, execute_found) (execute_durable-Keeps block spec w p)
    execute_found-Keeps block spec inline e w p =
        rw (e, execute_found) (execute_inline-Keeps block w p)

    after_lookup-Keeps :
        (block : ToolUseBlock) (r : Run (ToolSpec W))
        → Keeps P (after_lookup deps run_id step_idx deadline block r)
    unfolding after_lookup
    after_lookup-Keeps block (returns spec) = execute_found-Keeps block spec spec.execution refl
    after_lookup-Keeps block (raises e) =
        unfold not_executed in
        λ w p. elim (Option-cases (recoverable e)) [
          | inl q ↦ rw (q, not_executed) p
          | inr (detail, q) ↦ rw (q, not_executed) p
        ]
    after_lookup-Keeps block out_of_fuel = λ w p. p

    find_tool-Keeps :
        (block : ToolUseBlock) → Keeps P (find_tool deps run_id step_idx deadline block)
    unfolding find_tool
    find_tool-Keeps block =
        Keeps-lift_then P (lookup deps.registry block.name) _
          λ spec _. Keeps-lift_then P (validate_input spec block.input) _ λ payload _ w p. p

    execute_one-Keeps :
        (block : ToolUseBlock) → Keeps P (execute_one deps run_id step_idx deadline block)
    unfolding execute_one
    execute_one-Keeps block w p =
        let found = find_tool deps run_id step_idx deadline block w in
        after_lookup-Keeps block found.0 found.1 (find_tool-Keeps block w p)

    execute_all-Keeps :
        (blocks : List ToolUseBlock) → Keeps P (execute_all deps run_id step_idx deadline blocks)
    unfolding execute_all
    execute_all-Keeps [] = λ w p. p
    execute_all-Keeps (block ∷ blocks) =
        Keeps-bind P (execute_one deps run_id step_idx deadline block) _ (execute_one-Keeps block)
          λ one.
            Keeps-bind P (execute_all deps run_id step_idx deadline blocks) _
              (execute_all-Keeps blocks) λ rest w p. p

  module _ (run_id step_idx : ℕ) (request : Request) (limits : RunLimits)
      (charges : CallKeeps P (deps.store.record_retry run_id)) where
    tools_of-Keeps :
        (deadline : ℕ) (response : LlmResponse) (reason : StopReason)
        → response.stop_reason ≡ reason
        → Keeps P (tools_of deps run_id step_idx request limits deadline response)
    unfolding tools_of
    tools_of-Keeps deadline response tool_use e w p =
        rw (e, tools_of)
          (execute_all-Keeps run_id step_idx deadline (requested response.content) w p)
    tools_of-Keeps deadline response end_turn e w p = rw (e, tools_of) p
    tools_of-Keeps deadline response max_tokens e w p = rw (e, tools_of) p
    tools_of-Keeps deadline response stop_sequence e w p = rw (e, tools_of) p
    tools_of-Keeps deadline response pause_turn e w p = rw (e, tools_of) p
    tools_of-Keeps deadline response refusal e w p = rw (e, tools_of) p

    one_try-Keeps : (n : ℕ) → Keeps P (one_try deps run_id step_idx request limits n)
    unfolding one_try within_timeout in_block
    one_try-Keeps n = Keeps-then P deps.clock.loop_time _ laws.reads λ now w p. laws.leaves _ (
        Keeps-then P (deps.llm.complete request) _ (laws.asks request)
          (λ response.
            Keeps-bind P
              (tools_of deps run_id step_idx request limits (now + patience limits.step_timeout)
                response)
              _
              (tools_of-Keeps (now + patience limits.step_timeout) response response.stop_reason
                refl)
              λ done w p. p)
          _ (laws.enters (limits.step_timeout * 20) w p))

    charge-Keeps :
        (n : ℕ) (failure : Exc) (next : Prog W Attempt)
        → Keeps P next
        → Keeps P (charge deps run_id step_idx request limits n failure next)
    unfolding charge back_off
    charge-Keeps n failure next more =
        Keeps-if P (ltb limits.max_step_attempts n) _ _ (λ w p. p)
          (Keeps-then P (deps.store.record_retry run_id) _ charges λ total.
            Keeps-if P (ltb limits.max_run_retries total) _ _ (λ w p. p)
              (Keeps-bind P (back_off deps run_id step_idx request limits n) (λ _. next)
                (Keeps-then P deps.clock.random _ laws.draws λ random. laws.sleeps _) λ _. more))

    after_try-Keeps :
        (n : ℕ) (next : Prog W Attempt) (r : Run Attempt)
        → Keeps P next
        → Keeps P (after_try deps run_id step_idx request limits n next r)
    unfolding after_try
    after_try-Keeps n next (returns a) more w p = p
    after_try-Keeps n next (raises e) more w p =
        elim (Option-cases (retryable step_idx limits.step_timeout e)) [
          | inl q ↦ rw (q, after_try) p
          | inr (failure, q) ↦ rw (q, after_try) (charge-Keeps (n + 1) failure next more w p)
        ]
    after_try-Keeps n next out_of_fuel more w p = p

    attempts-Keeps : (fuel n : ℕ) → Keeps P (attempts deps run_id step_idx request limits fuel n)
    unfolding attempts
    attempts-Keeps zero n w p = p
    attempts-Keeps (suc fuel) n w p =
        after_try-Keeps n (attempts deps run_id step_idx request limits fuel (n + 1)) _
          (attempts-Keeps fuel (n + 1)) _ (one_try-Keeps n w p)

    pub attempt_step-Keeps : Keeps P (attempt_step deps run_id step_idx request limits)
    unfolding attempt_step
    attempt_step-Keeps = attempts-Keeps (suc limits.max_step_attempts) 1
