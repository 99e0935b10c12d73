-- ===== src/Execution/Untouched.antt =====
-- What an invocation leaves as it was: all that the handlers leave, and the ledger under its key.
use agent_force.Prelude.{Bool, true, false, ℕ, ◌≡◌, refl, String}
use agent_force.Errors.{Exc}
use agent_force.Effects.{Result, ok, err}
use agent_force.Effects.Keeps.{CallKeeps, Keeps, Keeps-then, Keeps-lift_then}
use agent_force.Json.{Json, Fields}
use agent_force.Tools.Spec.{ToolSpec, EffectClass, validate_input}
use agent_force.Tools.Registry.{Registry, lookup}
use agent_force.Idempotency.{
  InvocationAction, execute, replay, re_execute, review, InvocationDecision,
}
use agent_force.Ports.{ToolLedger}
use agent_force.Execution.{
  Caught, declared, uncaught, crashed, caught, truncate, settle_error, settle, run_handler, act,
  execute_invocation, crash_detail, review_reason,
}

-- The handlers, and the ledger's operations under one key, leave as it was what `P` says of the world.
pub record LeavesWorld {W : Type 0} (registry : Registry W) (ledger : ToolLedger W) (key : String)
    (P : W → Type 0) : Type 0 where
  pub runs_tool :
      (name : String) (spec : ToolSpec W) (payload : Json)
      → lookup registry name ≡ ok spec
      → CallKeeps P (spec.handler payload)
  pub begins :
      (run_id step_idx : ℕ) (tool : String) (effect : EffectClass)
      → CallKeeps P (ledger.begin run_id step_idx tool effect key)
  pub reviews : (reason : String) → CallKeeps P (ledger.needs_review key reason)
  pub completes :
      (result : String) (is_error : Bool) → CallKeeps P (ledger.complete key result is_error)

module _ {W : Type 0} (registry : Registry W) (ledger : ToolLedger W) (tool_name key : String)
    (P : W → Type 0) (laws : LeavesWorld registry ledger key P) where
  settle_error-Keeps : (e : Exc) (c : Caught) → Keeps P (settle_error ledger tool_name key e c)
  unfolding settle_error
  settle_error-Keeps e (declared m) =
      Keeps-then P (ledger.complete key m true) _ (laws.completes m true) λ _ w p. p
  settle_error-Keeps e uncaught = λ w p. p
  settle_error-Keeps e (crashed c) =
      Keeps-then P (ledger.complete key (crash_detail c) true) _
        (laws.completes (crash_detail c) true) λ _ w p. p

  settle-Keeps : (r : Result String) → Keeps P (settle ledger tool_name key r)
  unfolding settle
  settle-Keeps (ok output) =
      Keeps-then P (ledger.complete key (truncate output) false) _
        (laws.completes (truncate output) false) λ _ w p. p
  settle-Keeps (err e) = settle_error-Keeps e (caught e)

  run_handler-Keeps :
      (name : String) (spec : ToolSpec W) (payload : Json)
      → lookup registry name ≡ ok spec
      → Keeps P (run_handler ledger tool_name key spec payload)
  unfolding run_handler
  run_handler-Keeps name spec payload h w p =
      settle-Keeps (spec.handler payload w).0 (spec.handler payload w).1
        (laws.runs_tool name spec payload h w p)

  act-Keeps :
      (name : String) (spec : ToolSpec W) (payload : Json) (d : InvocationDecision)
      (a : InvocationAction)
      → d.action ≡ a
      → lookup registry name ≡ ok spec
      → Keeps P (act ledger tool_name key spec payload d)
  unfolding act
  act-Keeps name spec payload d execute e h w p =
      rw (e, act) (run_handler-Keeps name spec payload h w p)
  act-Keeps name spec payload d re_execute e h w p =
      rw (e, act) (run_handler-Keeps name spec payload h w p)
  act-Keeps name spec payload d replay e h w p = rw (e, act) p
  act-Keeps name spec payload d review e h w p =
      rw (e, act)
        (Keeps-then P (ledger.needs_review key (review_reason tool_name)) _
          (laws.reviews (review_reason tool_name)) (λ _ w p. p) w p)

  pub execute_invocation-Keeps :
      (run_id step_idx : ℕ) (args : Fields)
      → Keeps P (execute_invocation registry ledger run_id step_idx tool_name args key)
  unfolding execute_invocation
  execute_invocation-Keeps run_id step_idx args =
      Keeps-lift_then P (lookup registry tool_name) _ λ spec h.
        Keeps-lift_then P (validate_input spec args) _ λ payload _.
          Keeps-then P (ledger.begin run_id step_idx tool_name spec.effect_class key) _
            (laws.begins run_id step_idx tool_name spec.effect_class)
            λ d. act-Keeps tool_name spec payload d d.action refl h
