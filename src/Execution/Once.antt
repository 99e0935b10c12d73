-- ===== src/Execution/Once.antt =====
-- A tool call that has been settled is replayed: the handler does not run again.
use agent_force.Prelude.{
  ℕ, ◌≡◌, refl, true, false, String, some, string_Eq, arith, Option-cases, inl, inr,
}
use agent_force.Prelude.Dict.{get, get-put_self}
use agent_force.Errors.{Exc, tool_crashed, tool_execution_failed, cancelled}
use agent_force.Effects.{Result, ok, err}
use agent_force.Effects.Prog.{Run, returns, raises, out_of_fuel}
use agent_force.Json.{Json, Fields}
use agent_force.Tools.Spec.{ToolSpec, EffectClass, read_only, idempotent_write, unsafe}
use agent_force.Tools.Registry.{Registry, lookup}
use agent_force.Idempotency.{
  InvocationOutcome, InvocationStatus, pending, succeeded, failed, needs_review, review, decision,
  resolve_pending,
}
use agent_force.Tools.Lookup.{lookup-cases, validate_input-cases}
use agent_force.World.{World}
use agent_force.Ledger.Memory.{Invocation, begin, lookup as row_of, decide, new_invocation}
use agent_force.Ledger.Port.{ledger_port}
use agent_force.Ledger.Rows.{
  IsWellFormed, IsCoherent, lookup-some, complete-some, mark_needs_review-some, lookup-completed,
  lookup-reviewed,
}
use agent_force.Execution.{
  crash_detail, review_reason, truncate, settle, run_handler, act, execute_invocation,
}

-- A handler works in its environment: it does not write to the ledger.
pub record KeepsLedger (E : Type 0) (registry : Registry (World E)) : Type 0 where
  pub at_tool :
      (name : String) (spec : ToolSpec (World E)) (payload : Json) (w : World E)
      → lookup registry name ≡ ok spec
      → (spec.handler payload w).1.ledger ≡ w.ledger

-- An outcome that no later attempt changes.
abbrev pub IsSettled : String → InvocationOutcome → Type 0
IsSettled tool_name o = elim o.status [
  | pending ↦ ⊥
  | succeeded ↦ o.is_error ≡ false
  | failed ↦ o.is_error ≡ true
  | needs_review ↦ (o.is_error ≡ true) × (o.result ≡ some (review_reason tool_name))
]

abbrev pub crashed_outcome : Exc → InvocationOutcome
crashed_outcome e = record { status = failed; result = some (crash_detail e); is_error = true }

-- What the ledger has for a key after an invocation ended.
abbrev pub Recorded : {E : Type 0} → String → String → Run InvocationOutcome × World E → Type 0
Recorded tool key (returns o, w) = (row_of key w.ledger ≡ some o) × IsSettled tool o
Recorded tool key (raises (tool_crashed n e), w) = row_of key w.ledger ≡ some (crashed_outcome e)
Recorded tool key (raises e, w) = Unit
Recorded tool key (out_of_fuel, w) = ⊥

module _ {E : Type 0} (tool_name key : String) where
  settle-Recorded :
      (r : Result String) (w : World E) (row : Invocation)
      → get w.ledger.rows key ≡ some row
      → Recorded tool_name key (settle ledger_port tool_name key r w)
  unfolding settle
  settle-Recorded (ok output) w row h =
      rw (complete-some key (truncate output) false row w.ledger h)
        (lookup-completed key (truncate output) false row w.ledger, refl)
  settle-Recorded (err cancelled) w row h = tt
  settle-Recorded (err (tool_execution_failed m)) w row h =
      rw (complete-some key m true row w.ledger h) (lookup-completed key m true row w.ledger, refl)
  settle-Recorded (err e) w row h =
      rw (complete-some key (crash_detail e) true row w.ledger h)
        (lookup-completed key (crash_detail e) true row w.ledger)

  run_handler-Recorded :
      (spec : ToolSpec (World E)) (payload : Json) (w : World E) (row : Invocation)
      → (spec.handler payload w).1.ledger ≡ w.ledger
      → get w.ledger.rows key ≡ some row
      → Recorded tool_name key (run_handler ledger_port tool_name key spec payload w)
  unfolding run_handler
  run_handler-Recorded spec payload w row keeps h =
      settle-Recorded (spec.handler payload w).0 (spec.handler payload w).1 row (rw keeps h)

  review-Recorded :
      (spec : ToolSpec (World E)) (payload : Json) (w : World E) (row : Invocation)
      → get w.ledger.rows key ≡ some row
      → Recorded tool_name key (act ledger_port tool_name key spec payload (decision review) w)
  unfolding act
  review-Recorded spec payload w row h =
      rw (mark_needs_review-some key (review_reason tool_name) row w.ledger h)
        (lookup-reviewed key (review_reason tool_name) row w.ledger, (refl, refl))

  pending-Recorded :
      (effect : EffectClass) (spec : ToolSpec (World E)) (payload : Json) (w : World E)
      (row : Invocation)
      → (spec.handler payload w).1.ledger ≡ w.ledger
      → get w.ledger.rows key ≡ some row
      → Recorded tool_name key
          (act ledger_port tool_name key spec payload (decision (resolve_pending effect)) w)
  unfolding resolve_pending act
  pending-Recorded read_only spec payload w row keeps h =
      run_handler-Recorded spec payload w row keeps h
  pending-Recorded idempotent_write spec payload w row keeps h =
      run_handler-Recorded spec payload w row keeps h
  pending-Recorded unsafe spec payload w row keeps h = review-Recorded spec payload w row h

  decided-Recorded :
      (effect : EffectClass) (spec : ToolSpec (World E)) (payload : Json) (w : World E)
      (row : Invocation) (status : InvocationStatus)
      → row.status ≡ status
      → IsCoherent row
      → (spec.handler payload w).1.ledger ≡ w.ledger
      → get w.ledger.rows key ≡ some row
      → Recorded tool_name key (act ledger_port tool_name key spec payload (decide effect row) w)
  unfolding decide act
  decided-Recorded effect spec payload w row pending e c keeps h =
      rw (e, decide) (pending-Recorded effect spec payload w row keeps h)
  decided-Recorded effect spec payload w row needs_review e c keeps h =
      rw (e, decide) (review-Recorded spec payload w row h)
  decided-Recorded effect spec payload w row succeeded e c keeps h =
      ground (arith, lookup-some key row w.ledger h)
  decided-Recorded effect spec payload w row failed e c keeps h =
      ground (arith, lookup-some key row w.ledger h)

  begun-Recorded :
      (spec : ToolSpec (World E)) (payload : Json) (w : World E)
      → IsWellFormed w.ledger
      → ((u : World E) → (spec.handler payload u).1.ledger ≡ u.ledger)
      → Recorded tool_name key (
          act ledger_port tool_name key spec payload
            (begin spec.effect_class key w.ledger).0
            (record w { ledger = (begin spec.effect_class key w.ledger).1 }))
  unfolding begin act run_handler
  begun-Recorded spec payload w v keeps = elim (Option-cases (get w.ledger.rows key)) [
    | inl e ↦
        rw (e, begin)
          (run_handler-Recorded spec payload _ (new_invocation spec.effect_class) (keeps _)
            (get-put_self w.ledger.rows key _))
    | inr (row, e) ↦
        rw (e, begin)
          (decided-Recorded spec.effect_class spec payload w row row.status refl
            (v.at_key key row e) (keeps _) e)
  ]

module _ {E : Type 0} (registry : Registry (World E)) (run_id step_idx : ℕ) (tool_name : String)
    (args : Fields) (key : String) where
  abbrev pub execution : World E → Run InvocationOutcome × World E
  execution = execute_invocation registry ledger_port run_id step_idx tool_name args key

  pub execute_invocation-Recorded :
      (w : World E)
      → IsWellFormed w.ledger
      → KeepsLedger E registry
      → Recorded tool_name key (execution w)
  unfolding execute_invocation
  execute_invocation-Recorded w v keeps = elim (lookup-cases registry tool_name) [
    | inl e ↦ rw (e, execute_invocation) tt
    | inr (spec, e) ↦ elim (validate_input-cases spec args) [
      | inl (detail, h) ↦ rw (e, h, execute_invocation) tt
      | inr (payload, h) ↦
          rw (e, h, execute_invocation)
            (begun-Recorded tool_name key spec payload w v
              (λ u. keeps.at_tool tool_name spec payload u e))
    ]
  ]
