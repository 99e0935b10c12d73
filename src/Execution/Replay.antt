-- ===== src/Execution/Replay.antt =====
-- A second attempt at a settled invocation gives the recorded outcome and changes nothing.
use agent_force.Prelude.{
  ◌≡◌, ◌≢◌, refl, ℕ, true, String, some, string_Eq, arith, ap, sym, subst, ◌∙◌, inl, inr,
}
use agent_force.Prelude.Dict.{get, put-get}
use agent_force.Errors.{Exc, tool_crashed}
use agent_force.Effects.{ok, err}
use agent_force.Effects.Prog.{Run, returns, raises}
use agent_force.Json.{Json, Fields}
use agent_force.Tools.Spec.{ToolSpec, validate_input, EffectClass}
use agent_force.Tools.Registry.{Registry, lookup}
use agent_force.Tools.Lookup.{lookup-cases, validate_input-cases}
use agent_force.Idempotency.{
  InvocationStatus, InvocationOutcome, pending, succeeded, failed, needs_review,
}
use agent_force.World.{World}
use agent_force.Ledger.Memory.{Ledger, Invocation, lookup as row_of, decide, outcome_of}
use agent_force.Ledger.Port.{ledger_port}
use agent_force.Ledger.Rows.{IsWellFormed, lookup-inv, begin-some, mark_needs_review-some, reviewed}
use agent_force.Execution.{act, execute_invocation, review_reason}
use agent_force.Execution.Once.{
  KeepsLedger, IsSettled, crashed_outcome, execution, execute_invocation-Recorded,
}

module _ (tool_name key : String) where
  reviewed-same :
      (row : Invocation) (l : Ledger)
      → get l.rows key ≡ some row
      → row.status ≡ needs_review
      → row.is_error ≡ true
      → row.result ≡ some (review_reason tool_name)
      → reviewed key (review_reason tool_name) row l ≡ l
  reviewed-same row l h s e r = ground (arith, put-get l.rows key row h)

module _ {E : Type 0} (tool_name key : String) where
  act-settled :
      (effect : EffectClass) (spec : ToolSpec (World E)) (payload : Json) (w : World E)
      (row : Invocation) (status : InvocationStatus)
      → row.status ≡ status
      → get w.ledger.rows key ≡ some row
      → IsSettled tool_name (outcome_of row)
      → act ledger_port tool_name key spec payload (decide effect row) w
        ≡ (returns (outcome_of row), w)
  unfolding act decide
  act-settled effect spec payload w row pending s h t = ground arith
  act-settled effect spec payload w row succeeded s h t = ground arith
  act-settled effect spec payload w row failed s h t = ground arith
  act-settled effect spec payload w row needs_review s h t = ground (
    arith,
    mark_needs_review-some key (review_reason tool_name) row w.ledger h,
    reviewed-same tool_name key row w.ledger h,
  )

module _ {E : Type 0} (registry : Registry (World E)) (run_id step_idx : ℕ) (tool_name : String)
    (args : Fields) (key : String) where
  abbrev attempt : World E → Run InvocationOutcome × World E
  attempt = execution registry run_id step_idx tool_name args key

  -- The call of a known tool with valid arguments, where the ledger has a row.
  pub at_row :
      (w : World E) (spec : ToolSpec (World E)) (payload : Json) (row : Invocation)
      → lookup registry tool_name ≡ ok spec
      → validate_input spec args ≡ ok payload
      → get w.ledger.rows key ≡ some row
      → attempt w ≡ act ledger_port tool_name key spec payload (decide spec.effect_class row) w
  unfolding execute_invocation
  at_row w spec payload row e h g =
      rw (e, h, execute_invocation) (rw (begin-some spec.effect_class key row w.ledger g) refl)

  settled-replays :
      (w : World E) {o : InvocationOutcome} (spec : ToolSpec (World E)) (payload : Json)
      → lookup registry tool_name ≡ ok spec
      → validate_input spec args ≡ ok payload
      → row_of key w.ledger ≡ some o
      → IsSettled tool_name o
      → attempt w ≡ (returns o, w)
  settled-replays w {o} spec payload e h r t =
      let (row, g, q) = lookup-inv key w.ledger r in
      at_row w spec payload row e h g
      ∙ act-settled tool_name key spec.effect_class spec payload w row row.status refl g
          (subst (IsSettled tool_name) (sym q) t)
      ∙ ap (λ o. (returns o, w)) q

  unknown_tool :
      (w : World E) {x : Exc} → lookup registry tool_name ≡ err x → attempt w ≡ (raises x, w)
  unfolding execute_invocation
  unknown_tool w e = rw (e, execute_invocation) refl

  invalid_args :
      (w : World E) (spec : ToolSpec (World E)) {x : Exc}
      → lookup registry tool_name ≡ ok spec
      → validate_input spec args ≡ err x
      → attempt w ≡ (raises x, w)
  unfolding execute_invocation
  invalid_args w spec e h = rw (e, h, execute_invocation) refl

  -- A call that got as far as the ledger names a known tool, with valid arguments.
  pub replays_from :
      (w : World E) (end : Run InvocationOutcome × World E)
      → attempt w ≡ end
      → (w' : World E) (o : InvocationOutcome)
      → ((x : Exc) → end.0 ≡ raises x → ((n : String) (c : Exc) → x ≢ tool_crashed n c) → ⊥)
      → row_of key w'.ledger ≡ some o
      → IsSettled tool_name o
      → attempt w' ≡ (returns o, w')
  replays_from w end ran w' o ended r t = elim (lookup-cases registry tool_name) [
    | inl e ↦ absurd (ended _ (ap (λ p. p.0) (sym ran ∙ unknown_tool w e)) (λ n c q. cc))
    | inr (spec, e) ↦ elim (validate_input-cases spec args) [
      | inl (detail, h) ↦
          absurd (ended _ (ap (λ p. p.0) (sym ran ∙ invalid_args w spec e h)) (λ n c q. cc))
      | inr (payload, h) ↦ settled-replays w' spec payload e h r t
    ]
  ]

  -- With handlers that do not write to a coherent ledger: once an invocation has returned an
  -- outcome, the same attempt made directly after it returns that outcome and changes nothing at all,
  -- so the handler is not run again.
  pub execute_again :
      (w w' : World E) (o : InvocationOutcome)
      → IsWellFormed w.ledger
      → KeepsLedger E registry
      → attempt w ≡ (returns o, w')
      → attempt w' ≡ (returns o, w')
  execute_again w w' o v keeps ran =
      let done =
        rw ran at
          (execute_invocation-Recorded registry run_id step_idx tool_name args key w v keeps) in
      replays_from w _ ran w' o (λ x e n. cc) done.0 done.1

  -- With handlers that do not write to a coherent ledger, an invocation whose handler crashed is not
  -- run again: the same attempt, made after it, returns the crash as a failed outcome and changes
  -- nothing.
  pub execute_after_crash :
      (w w' : World E) (name : String) (cause : Exc)
      → IsWellFormed w.ledger
      → KeepsLedger E registry
      → attempt w ≡ (raises (tool_crashed name cause), w')
      → attempt w' ≡ (returns (crashed_outcome cause), w')
  execute_after_crash w w' name cause v keeps ran =
      let done =
        rw ran at
          (execute_invocation-Recorded registry run_id step_idx tool_name args key w v keeps) in
      replays_from w _ ran w' (crashed_outcome cause) (λ x e n. n name cause (cc)) done refl
