-- ===== src/Ports.antt =====
-- app/core/ports.py: the interfaces that the loop is given, over a world `W` that holds all that is
-- outside the loop. An operation may raise, and may change the world in any way.
use agent_force.Prelude.{ℕ, Bool, String, Option, List}
use agent_force.Prelude.Int.{ℤ}
use agent_force.Effects.Prog.{Call}
use agent_force.Json.{Fields}
use agent_force.Messages.{Effort, Message, LlmResponse, ToolSchema}
use agent_force.State.{RunStatus, RunRecord, RunOutcome, StepRecord}
use agent_force.Tools.Spec.{EffectClass}
use agent_force.Idempotency.{InvocationDecision, InvocationOutcome}

-- The arguments of `LLMClient.complete`.
pub record Request : Type 0 where
  pub messages : List Message
  pub system : String
  pub tools : List ToolSchema
  pub max_tokens : ℤ
  pub effort : Effort

pub record LlmClient (W : Type 0) : Type 0 where
  pub complete : Request → Call W LlmResponse

-- What the loop uses of `RunStore`; leases are in clock ticks.
pub record RunStore (W : Type 0) : Type 0 where
  pub commit_step : ℕ → StepRecord → List Message → Call W (Unit {0})
  pub finish : ℕ → RunOutcome → Call W (Unit {0})
  pub record_retry : ℕ → Call W ℕ
  pub claim : ℕ → String → ℕ → Call W (Option RunRecord)
  pub renew : ℕ → String → ℕ → Call W Bool
  pub release : ℕ → String → RunStatus → Call W (Unit {0})

pub record ToolLedger (W : Type 0) : Type 0 where
  pub begin : ℕ → ℕ → String → EffectClass → String → Call W InvocationDecision
  pub lookup : String → Call W (Option InvocationOutcome)
  pub needs_review : String → String → Call W (Unit {0})
  pub complete : String → String → Bool → Call W (Unit {0})

pub record TaskQueue (W : Type 0) : Type 0 where
  pub enqueue_tool : ℕ → ℕ → String → Fields → String → Call W (Unit {0})

-- The injected clock's `sleep`, the event loop's `time()`, the injected random numbers, and the
-- entry into and the exit from `asyncio.timeout`. A time is a number of ticks of 50 microseconds,
-- twenty to the millisecond. Inside the block any call may be cut off, which raises `cancelled`.
pub record Clock (W : Type 0) : Type 0 where
  pub sleep : ℕ → Call W (Unit {0})
  pub loop_time : Call W ℕ
  pub random : Call W ℕ
  pub enter_timeout : ℕ → W → W
  pub leave_timeout : W → W
