-- ===== src/Loop/Attempts.antt =====
-- `_attempt_step`: one model call and its tools, under a deadline and two retry bounds.
use agent_force.Prelude.{
  ℕ, zero, suc, ◌+◌, ◌*◌, ◌/◌, ◌-◌, max, true, false, Option, none, some, List, [], ltb,
  if◌then◌else◌,
}
use agent_force.Prelude.Text.{◌&◌, show_nat}
use agent_force.Errors.{
  Exc, llm_transport_error, task_queue_unavailable, timeout_error, step_timeout, retries_exhausted,
  cancelled, str,
}
use agent_force.Effects.Prog.{
  Run, Prog, returns, raises, out_of_fuel, pure, raise, diverge, call, ◌>>=◌, ◌>>◌,
}
use agent_force.Messages.{LlmResponse, ToolResultBlock, tool_use}
use agent_force.State.{RunLimits, ToolCallRecord}
use agent_force.Retry.{delay_for, random_steps}
use agent_force.Ports.{Request}
use agent_force.Loop.Deps.{Deps}
use agent_force.Loop.Blocks.{requested}
use agent_force.Loop.Dispatch.{execute_all}

-- `_Attempt`
pub record Attempt : Type 0 where
  pub response : LlmResponse
  pub results : List ToolResultBlock
  pub records : List ToolCallRecord
  pub attempt : ℕ

-- The failures that are retried, with what is reported of them.
unfoldable pub retryable : ℕ → ℕ → Exc → Option Exc
retryable step_idx timeout timeout_error = some (step_timeout step_idx timeout)
retryable step_idx timeout (llm_transport_error m) = some (llm_transport_error m)
retryable step_idx timeout (task_queue_unavailable m) = some (task_queue_unavailable m)
retryable step_idx timeout e = none

-- Ticks of 50 microseconds: twenty to a millisecond, and 5% of them are the milliseconds. The floor
-- is 0.1 seconds.
unfoldable pub reserve : ℕ → ℕ
reserve timeout = max timeout 2000

unfoldable pub patience : ℕ → ℕ
unfolding reserve
patience timeout = timeout * 20 - reserve timeout

-- A cancellation that leaves the `asyncio.timeout` block is a `TimeoutError`.
unfoldable pub timed_out : {A : Type 0} → Run A → Run A
timed_out (raises cancelled) = raises timeout_error
timed_out r = r

module _ {W : Type 0} (deps : Deps W) (run_id step_idx : ℕ) (request : Request)
    (limits : RunLimits) where
  unfoldable pub tools_of : ℕ → LlmResponse → Prog W (List ToolResultBlock × List ToolCallRecord)
  unfolding execute_all requested
  tools_of deadline response = elim response.stop_reason [
    | tool_use ↦ execute_all deps run_id step_idx deadline (requested response.content)
    | _ ↦ pure ([], [])
  ]

  unfoldable pub in_block : ℕ → ℕ → Prog W Attempt
  unfolding tools_of
  in_block attempt deadline = do
    response ← call (deps.llm.complete request)
    done ← tools_of deadline response
    pure (record { response = response; results = done.0; records = done.1; attempt = attempt })

  -- The `async with asyncio.timeout(...)` block.
  unfoldable pub within_timeout : ℕ → ℕ → Prog W Attempt
  unfolding in_block timed_out
  within_timeout attempt deadline w =
      let (r, w') =
        in_block attempt deadline (deps.clock.enter_timeout (limits.step_timeout * 20) w) in
      (timed_out r, deps.clock.leave_timeout w')

  unfoldable pub one_try : ℕ → Prog W Attempt
  unfolding within_timeout patience
  one_try attempt = do
    now ← call deps.clock.loop_time
    within_timeout attempt (now + patience limits.step_timeout)

  unfoldable pub step_exhausted : Exc → Exc
  step_exhausted failure =
      retries_exhausted
        ("Step "
          & show_nat step_idx
          & " failed "
          & show_nat limits.max_step_attempts
          & " times; last error: "
          & str failure)
        (str failure) false

  unfoldable pub run_exhausted : Exc → Exc
  run_exhausted failure =
      retries_exhausted
        ("Run exhausted its "
          & show_nat limits.max_run_retries
          & " retries; last error: "
          & str failure)
        (str failure) true

  -- The delay is a number of milliseconds times 2^53, and is rounded down to a tick.
  unfoldable pub back_off : ℕ → Prog W (Unit {0})
  unfolding delay_for
  back_off attempt = do
    random ← call deps.clock.random
    call (deps.clock.sleep (delay_for deps.backoff attempt random * 20 / random_steps))

  -- What follows a retryable failure, where `attempt` is the number of the next try.
  unfoldable pub charge : ℕ → Exc → Prog W Attempt → Prog W Attempt
  unfolding step_exhausted run_exhausted back_off
  charge attempt failure next =
      if ltb limits.max_step_attempts attempt then raise (step_exhausted failure) else (do
        total ← call (deps.store.record_retry run_id)
        if ltb limits.max_run_retries total
            then raise (run_exhausted failure)
            else (do back_off attempt; next))

  unfoldable pub after_try : ℕ → Prog W Attempt → Run Attempt → Prog W Attempt
  unfolding charge retryable
  after_try attempt next (returns a) = pure a
  after_try attempt next out_of_fuel = diverge
  after_try attempt next (raises e) = elim (retryable step_idx limits.step_timeout e) [
    | none ↦ raise e
    | some failure ↦ charge (attempt + 1) failure next
  ]

  -- The `while True`, on fuel.
  unfoldable pub attempts : ℕ → ℕ → Prog W Attempt
  unfolding one_try after_try
  attempts zero attempt w = (out_of_fuel, w)
  attempts (suc fuel) attempt w =
      let next : Prog W Attempt = attempts fuel (attempt + 1) in
      let (r, w') = one_try attempt w in after_try attempt next r w'

  -- A try is made for each number up to the bound, and the first one always.
  unfoldable pub attempt_step : Prog W Attempt
  unfolding attempts
  attempt_step = attempts (suc limits.max_step_attempts) 1
