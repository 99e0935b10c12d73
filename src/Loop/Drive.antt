-- ===== src/Loop/Drive.antt =====
-- `run`, with `_commit`, `_fail`, `_pause` and `_conversation`.
use agent_force.Prelude.{
  ℕ, zero, suc, String, Option, none, some, List, [], ◌∷◌, ◌++◌, length, is_empty, if◌then◌else◌,
}
use agent_force.Prelude.Text.{◌&◌, show_uuid}
use agent_force.Errors.{Exc, step_already_committed, run_not_resumable, str}
use agent_force.Effects.{ok, err}
use agent_force.Effects.Prog.{
  Run, Prog, returns, raises, out_of_fuel, pure, raise, diverge, call, lift, try_except, ◌>>=◌,
  ◌>>◌,
}
use agent_force.Messages.{Message, user, assistant}
use agent_force.State.{
  RunStatus, paused, completed, failed, ErrorCode, upstream_refusal, upstream_truncated,
  tool_failed, step_failed, tool_pending, RunLimits, RunUsage, plus, StepRecord, ToolCallRecord,
  RunOutcome, RunRecord,
}
use agent_force.State
use agent_force.Policy.{check, max_tokens_for_next_step}
use agent_force.Tools.Registry.{schemas}
use agent_force.Ports.{Request}
use agent_force.Loop.Deps.{Deps}
use agent_force.Loop.Blocks.{result_blocks, answer_from}
use agent_force.Loop.Attempts.{Attempt, attempt_step}
use agent_force.Loop.Turns.{
  LoopState, answered, called, category_text, ended, escapes, fails, initial, pauses, reading,
  refused, stop_for, truncated, truncated_text,
}

module _ {W : Type 0} (deps : Deps W) (run_id : ℕ) (owner : String) where
  unfoldable pub fail : LoopState → ErrorCode → String → Prog W RunOutcome
  fail s code message = do
    let outcome = ended failed s code message
    call (deps.store.finish run_id outcome)
    pure outcome

  unfoldable pub pause : LoopState → ErrorCode → String → Prog W RunOutcome
  pause s code message = do
    call (deps.store.release run_id owner paused)
    pure (ended paused s code message)

  -- `except StepAlreadyCommitted: pass`
  unfoldable pub swallow : Exc → Prog W (Unit {0})
  swallow (step_already_committed m) = pure tt
  swallow e = raise e

  unfoldable pub commit : StepRecord → List Message → Prog W (Unit {0})
  unfolding swallow
  commit step messages = do
    try_except (call (deps.store.commit_step run_id step messages)) swallow
    held ← call (deps.store.renew run_id owner deps.lease_ttl)
    if held
        then pure tt
        else raise (
            run_not_resumable (
              "Lost the lease on run " & show_uuid run_id & " — another worker has taken it over."))

  unfoldable pub assistant_turn : Attempt → Message
  assistant_turn a = record { role = assistant; content = a.response.content }

  unfoldable pub results_turn : Attempt → Message
  results_turn a = record { role = user; content = result_blocks a.results }

  -- The state after a turn that called tools.
  unfoldable pub after_calls : LoopState → Attempt → StepRecord → LoopState
  unfolding assistant_turn results_turn result_blocks
  after_calls s a step = record {
    usage = s.usage;
    messages = s.messages ++ assistant_turn a ∷ results_turn a ∷ [];
    pending = [];
    steps = s.steps ++ step ∷ [];
  }

  -- `step_idx` is the number of steps, and a step without tools has none recorded.
  unfoldable pub step_of : LoopState → Attempt → List ToolCallRecord → StepRecord
  step_of s a calls = record {
    idx = length s.steps;
    stop_reason = a.response.stop_reason;
    usage = a.response.usage;
    tool_calls = calls;
    attempt = a.attempt;
  }

  unfoldable pub finish_answer : LoopState → Attempt → Prog W RunOutcome
  unfolding commit step_of assistant_turn answer_from
  finish_answer s a = do
    let step = step_of s a []
    commit step (s.pending ++ assistant_turn a ∷ [])
    let outcome : RunOutcome = record {
      status = completed;
      usage = s.usage;
      messages = s.messages ++ assistant_turn a ∷ [];
      steps = s.steps ++ step ∷ [];
      answer = some (answer_from a.response.content);
      error_code = none;
      error_message = none;
    }
    call (deps.store.finish run_id outcome)
    pure outcome

  unfoldable pub continue_calls :
      (LoopState → Prog W RunOutcome) → LoopState → Attempt → Prog W RunOutcome
  unfolding commit step_of after_calls
  continue_calls next s a = do
    let step = step_of s a a.records
    commit step (s.pending ++ assistant_turn a ∷ results_turn a ∷ [])
    next (after_calls s a step)

  -- What follows a successful attempt; the usage is already counted in `s`.
  unfoldable pub respond : (LoopState → Prog W RunOutcome) → LoopState → Attempt → Prog W RunOutcome
  unfolding reading fail finish_answer continue_calls category_text truncated_text
  respond next s a = elim (reading a.response.stop_reason (is_empty a.records)) [
    | refused ↦ fail s upstream_refusal (
        "The model declined to continue (category: " & category_text a.response.stop_details & ").")
    | truncated ↦ fail s upstream_truncated (truncated_text a.response.stop_reason)
    | answered ↦ finish_answer s a
    | called ↦ continue_calls next s a
  ]

  unfoldable pub stop : LoopState → Exc → Prog W RunOutcome
  unfolding stop_for fail pause
  stop s e = elim (stop_for e) [
    | fails code ↦ fail s code (str e)
    | pauses code ↦ pause s code (str e)
    | escapes ↦ raise e
  ]

  unfoldable pub after_attempt :
      (LoopState → Prog W RunOutcome) → LoopState → Run Attempt → Prog W RunOutcome
  unfolding respond stop plus
  after_attempt next s (returns a) =
      respond next (record s { usage = plus s.usage a.response.usage }) a
  after_attempt next s (raises e) = stop s e
  after_attempt next s out_of_fuel = diverge

  module _ (r : RunRecord) (system_prompt : String) where
    unfoldable pub request_for : LoopState → Request
    unfolding max_tokens_for_next_step schemas
    request_for s = record {
      messages = s.messages;
      system = system_prompt;
      tools = schemas deps.registry;
      max_tokens = max_tokens_for_next_step r.limits s.usage;
      effort = r.effort;
    }

    -- One round of the `while True`.
    unfoldable pub round : (LoopState → Prog W RunOutcome) → LoopState → Prog W RunOutcome
    unfolding check fail request_for attempt_step after_attempt
    round next s w = elim (check r.limits s.usage) [
      | err e ↦ fail s State.budget_exceeded (str e) w
      | ok _ ↦
          (let (a, w') = attempt_step deps run_id (length s.steps) (request_for s) r.limits w in
            after_attempt next s a w')
    ]

    unfoldable pub drive : ℕ → LoopState → Prog W RunOutcome
    unfolding round
    drive zero s = diverge
    drive (suc fuel) s = let next : LoopState → Prog W RunOutcome = drive fuel in round next s

  unfoldable pub start : Option RunRecord → Prog W RunOutcome
  unfolding drive initial
  start none =
      raise (
        run_not_resumable ("Run " & show_uuid run_id & " is terminal or leased by another worker."))
  start (some r) = do
    system_prompt ← lift (deps.load_prompt r.prompt_name r.prompt_version)
    drive r system_prompt (suc r.limits.max_steps) (initial r)

  -- Each round that goes on uses a step of `max_steps`, and one more round finds them used up.
  unfoldable pub run : Prog W RunOutcome
  unfolding start
  run = do claimed ← call (deps.store.claim run_id owner deps.lease_ttl); start claimed
