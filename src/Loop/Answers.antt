-- ===== src/Loop/Answers.antt =====
-- Every tool call that the model makes in a turn gets its result, in order.
use agent_force.Prelude.{
  ℕ, suc, ◌≡◌, refl, inl, inr, Bool, true, false, String, List, [], ◌∷◌, Option-cases,
}
use agent_force.Effects.Prog.{Run, returns, raises, out_of_fuel, lift, try_except, raise}
use agent_force.Effects.Yields.{Yields, Yields-then, Yields-bind, Yields-bind_by}
use agent_force.Messages.{ToolUseBlock, ToolResultBlock}
use agent_force.State.{ToolCallRecord}
use agent_force.Tools.Spec.{ToolSpec, ExecutionMode, inline, durable}
use agent_force.Idempotency.{InvocationStatus, InvocationOutcome, needs_review}
use agent_force.Execution.{execute_invocation}
use agent_force.Loop.Deps.{Deps}
use agent_force.Loop.Blocks.{CallResult, error_result, shown, recorded, result_from}
use agent_force.Loop.Dispatch.{
  poll, poll_min, execute_durable, execute_inline, execute_one, execute_all, enqueue_if_absent,
  key_of, find_tool, execute_found, after_lookup, not_executed, recoverable, bug_of,
}

-- The result and the record carry the id of the call, and the record says whether it failed.
abbrev pub Answers : ToolUseBlock → CallResult → Type 0
Answers block (result, record_of) =
    (result.tool_use_id ≡ block.id)
    × (record_of.tool_use_id ≡ block.id)
    × (record_of.name ≡ block.name)
    × (result.is_error ≡ true → record_of.ok ≡ false)
    × (result.is_error ≡ false → record_of.ok ≡ true)

abbrev pub AnswersAll : List ToolUseBlock → List ToolResultBlock → List ToolCallRecord → Type 0
AnswersAll [] [] [] = Unit
AnswersAll (b ∷ bs) (r ∷ rs) (c ∷ cs) = Answers b (r, c) × AnswersAll bs rs cs
AnswersAll _ _ _ = ⊥

error_result-Answers :
    (block : ToolUseBlock) (detail : String) → Answers block (error_result block detail)
unfolding error_result
error_result-Answers block detail = (refl, refl, refl, (λ _. refl), (λ h. cc))

shown-Answers :
    (e : Bool) (block : ToolUseBlock) (text : String) → Answers block (shown e block text)
unfolding shown
shown-Answers true block text = error_result-Answers block text
shown-Answers false block text = (refl, refl, refl, (λ h. cc), (λ _. refl))

module _ {W : Type 0} where
  result_from-Answers :
      (block : ToolUseBlock) (o : InvocationOutcome) (w : W) (status : InvocationStatus)
      → o.status ≡ status
      → Yields {W = W} (λ one _. Answers block one) (lift (result_from block o) w)
  unfolding result_from
  result_from-Answers block o w needs_review e = rw (e, result_from) tt
  result_from-Answers block o w _ e =
      rw (e, result_from) (shown-Answers o.is_error block (recorded o))

abbrev AnswersHere : {W : Type 0} → ToolUseBlock → CallResult → W → Type 0
AnswersHere block one w = Answers block one

module _ {W : Type 0} (deps : Deps W) (run_id step_idx deadline : ℕ) where
  durable-Answers :
      (block : ToolUseBlock) (spec : ToolSpec W) (w : W)
      → Yields (AnswersHere block) (execute_durable deps run_id step_idx deadline block spec w)
  unfolding execute_durable
  durable-Answers block spec w = elim (Option-cases deps.queue) [
    | inl e ↦ rw (e, execute_durable) tt
    | inr (queue, e) ↦
        rw (e, execute_durable)
          (Yields-then (AnswersHere block) (deps.ledger.lookup key) _ w λ outcome.
            Yields-bind (AnswersHere block)
              (enqueue_if_absent deps run_id step_idx deadline queue block outcome) _ _
              λ _ _.
                Yields-bind (AnswersHere block)
                  (poll deps run_id step_idx deadline (suc deadline) block.name key poll_min
                    outcome)
                  _ _ λ o _. result_from-Answers block o _ o.status refl)
  ]
    where
      key : String
      key = key_of deps run_id step_idx deadline block

  inline-Answers :
      (block : ToolUseBlock) (w : W)
      → Yields (AnswersHere block) (execute_inline deps run_id step_idx deadline block w)
  unfolding execute_inline
  inline-Answers block w =
      Yields-bind (AnswersHere block)
        (try_except
          (execute_invocation deps.registry deps.ledger run_id step_idx block.name block.input
            (key_of deps run_id step_idx deadline block))
          (λ e. raise (bug_of e)))
        (λ o. lift (result_from block o)) w λ o _. result_from-Answers block o _ o.status refl

  found-Answers :
      (block : ToolUseBlock) (spec : ToolSpec W) (w : W) (mode : ExecutionMode)
      → spec.execution ≡ mode
      → Yields (AnswersHere block) (execute_found deps run_id step_idx deadline block spec w)
  unfolding execute_found
  found-Answers block spec w durable e = rw (e, execute_found) (durable-Answers block spec w)
  found-Answers block spec w inline e = rw (e, execute_found) (inline-Answers block w)

  after_lookup-Answers :
      (block : ToolUseBlock) (r : Run (ToolSpec W)) (w : W)
      → Yields (AnswersHere block) (after_lookup deps run_id step_idx deadline block r w)
  unfolding after_lookup
  after_lookup-Answers block (returns spec) w = found-Answers block spec w spec.execution refl
  after_lookup-Answers block (raises e) w =
      unfold not_executed in
      elim (Option-cases (recoverable e)) [
        | inl q ↦ rw (q, not_executed) tt
        | inr (detail, q) ↦ rw (q, not_executed) (error_result-Answers block detail)
      ]
  after_lookup-Answers block out_of_fuel w = tt

  one-Answers :
      (block : ToolUseBlock) (w : W)
      → Yields (AnswersHere block) (execute_one deps run_id step_idx deadline block w)
  unfolding execute_one
  one-Answers block w =
      after_lookup-Answers block (find_tool deps run_id step_idx deadline block w).0
        (find_tool deps run_id step_idx deadline block w).1

  all-Answers :
      (blocks : List ToolUseBlock) (w : W)
      → Yields
          (λ done _. AnswersAll blocks done.0 done.1)
          (execute_all deps run_id step_idx deadline blocks w)
  unfolding execute_all
  all-Answers [] w = tt
  all-Answers (block ∷ blocks) w =
      Yields-bind_by (λ done _. AnswersAll (block ∷ blocks) done.0 done.1) (AnswersHere block)
        (execute_one deps run_id step_idx deadline block) _ w (one-Answers block w)
        λ one q.
          Yields-bind_by (λ done _. AnswersAll (block ∷ blocks) done.0 done.1)
            (λ done _. AnswersAll blocks done.0 done.1)
            (execute_all deps run_id step_idx deadline blocks) _ _ (all-Answers blocks _)
            λ rest qs. (q, qs)

  -- Where the calls of a turn are all executed, whatever the tools, the ledger and the queue do,
  -- each call has one result and one record, in the order of the calls, with its id and its name;
  -- the record says that the call went well exactly if the result is no error.
  pub execute_all-AnswersAll :
      (blocks : List ToolUseBlock) (results : List ToolResultBlock) (records : List ToolCallRecord)
      (w w' : W)
      → execute_all deps run_id step_idx deadline blocks w ≡ (returns (results, records), w')
      → AnswersAll blocks results records
  execute_all-AnswersAll blocks results records w w' h = rw h at (all-Answers blocks w)
