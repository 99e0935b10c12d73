-- ===== src/Loop/Deps.antt =====
-- What an `AgentLoop` is constructed with, and the check that its constructor makes.
use agent_force.Prelude.{ℕ, Bool, true, false, String, Option, none, some, List, [], ◌∷◌}
use agent_force.Prelude.Text.{◌&◌, join}
use agent_force.Errors.{queue_not_configured}
use agent_force.Effects.{Result, ok, err}
use agent_force.Retry.{BackoffPolicy}
use agent_force.Tools.Spec.{inline, durable}
use agent_force.Tools.Registry.{Registry, names, lookup}
use agent_force.Ports.{LlmClient, RunStore, ToolLedger, TaskQueue, Clock}

-- `sha256` is `hashlib.sha256(text.encode()).hexdigest()`, and `load_prompt` may raise. The lease is
-- in seconds.
pub record Deps (W : Type 0) : Type 0 where
  pub llm : LlmClient W
  pub registry : Registry W
  pub store : RunStore W
  pub ledger : ToolLedger W
  pub clock : Clock W
  pub load_prompt : String → ℕ → Result String
  pub queue : Option (TaskQueue W)
  pub backoff : BackoffPolicy
  pub lease_ttl : ℕ
  pub sha256 : String → String

module _ {W : Type 0} where
  -- `registry.get(name).execution is ExecutionMode.DURABLE`
  unfoldable pub is_durable : Registry W → String → Bool
  unfolding lookup
  is_durable r name = elim (lookup r name) [
    | ok spec ↦ elim spec.execution [ inline ↦ false | durable ↦ true ]
    | err e ↦ false
  ]

  unfoldable pub durable_among : Registry W → List String → List String
  unfolding is_durable
  durable_among r [] = []
  durable_among r (n ∷ ns) =
      let rest = durable_among r ns in elim (is_durable r n) [ true ↦ n ∷ rest | false ↦ rest ]

  unfoldable pub unroutable_error : List String → Deps W → Result (Deps W)
  unfolding join
  unroutable_error [] deps = ok deps
  unroutable_error (n ∷ ns) deps = err (
      queue_not_configured (
        "No TaskQueue was supplied, but these tools are DURABLE and can only run on a worker: "
        & join ", " (n ∷ ns)
        & "."))

  -- `AgentLoop.__init__`
  unfoldable pub init : Deps W → Result (Deps W)
  unfolding durable_among names unroutable_error
  init deps = elim deps.queue [
    | none ↦ unroutable_error (durable_among deps.registry (names deps.registry)) deps
    | some queue ↦ ok deps
  ]
