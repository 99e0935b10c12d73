-- ===== src/Execution/Ends.antt =====
-- `execute_invocation` has no loop: it ends in any world.
use agent_force.Prelude.{ℕ, String, true, false, ◌≡◌, refl}
use agent_force.Errors.{Exc}
use agent_force.Effects.{Result, ok, err}
use agent_force.Effects.Ends.{Ends, Ends-pure, Ends-raise, Ends-then, Ends-lift_then}
use agent_force.Json.{Json, Fields}
use agent_force.Tools.Spec.{ToolSpec, validate_input}
use agent_force.Tools.Registry.{Registry, lookup}
use agent_force.Idempotency.{
  InvocationAction, execute, replay, re_execute, review, InvocationDecision,
}
use agent_force.Ports.{ToolLedger}
use agent_force.Execution.{
  Caught, declared, uncaught, crashed, caught, truncate, settle_error, settle, run_handler, act,
  execute_invocation, crash_detail, review_reason,
}

module _ {W : Type 0} (ledger : ToolLedger W) (tool_name key : String) where
  settle_error-Ends :
      (e : Exc) (c : Caught) (w : W) → Ends (settle_error ledger tool_name key e c w)
  unfolding settle_error
  settle_error-Ends e (declared m) w = Ends-then (ledger.complete key m true) _ w (λ _ h. cc)
  settle_error-Ends e uncaught w = Ends-raise e w
  settle_error-Ends e (crashed c) w =
      Ends-then (ledger.complete key (crash_detail c) true) _ w (λ _ h. cc)

  settle-Ends : (r : Result String) (w : W) → Ends (settle ledger tool_name key r w)
  unfolding settle
  settle-Ends (ok output) w =
      Ends-then (ledger.complete key (truncate output) false) _ w (λ _ h. cc)
  settle-Ends (err e) w = settle_error-Ends e (caught e) w

  act-Ends :
      (spec : ToolSpec W) (payload : Json) (d : InvocationDecision) (w : W) (a : InvocationAction)
      → d.action ≡ a
      → Ends (act ledger tool_name key spec payload d w)
  unfolding act
  act-Ends spec payload d w execute e =
      rw (e, act)
        (unfold run_handler in settle-Ends (spec.handler payload w).0 (spec.handler payload w).1)
  act-Ends spec payload d w re_execute e =
      rw (e, act)
        (unfold run_handler in settle-Ends (spec.handler payload w).0 (spec.handler payload w).1)
  act-Ends spec payload d w replay e = rw (e, act) (Ends-pure _ w)
  act-Ends spec payload d w review e =
      rw (e, act) (Ends-then (ledger.needs_review key (review_reason tool_name)) _ w (λ _ h. cc))

pub execute_invocation-Ends :
    {W : Type 0} (registry : Registry W) (ledger : ToolLedger W) (run_id step_idx : ℕ)
    (tool_name : String) (args : Fields) (key : String) (w : W)
    → Ends (execute_invocation registry ledger run_id step_idx tool_name args key w)
unfolding execute_invocation
execute_invocation-Ends registry ledger run_id step_idx tool_name args key w =
    Ends-lift_then (lookup registry tool_name) _ w λ spec.
      Ends-lift_then (validate_input spec args) _ w λ payload.
        Ends-then (ledger.begin run_id step_idx tool_name spec.effect_class key) _ w
          λ d. act-Ends ledger tool_name key spec payload d _ d.action refl
