-- ===== src/Ledger/Postgres.antt =====
-- `PostgresToolLedger` of app/adapters/db/tool_ledger.py, over a table that is given from outside.
-- A `transaction` that raises leaves the database as it was; `datetime.now` is an argument.
use agent_force.Prelude.{ℕ, Bool, true, false, String, Option, none, some, if◌then◌else◌}
use agent_force.Errors.{other}
use agent_force.Effects.{Result, ok, err}
use agent_force.Tools.Spec.{EffectClass}
use agent_force.Idempotency.{
  InvocationStatus, pending, succeeded, failed, needs_review, execute, replay, review,
  InvocationDecision, decision, InvocationOutcome, resolve_pending,
}
use agent_force.Database.Tables.{Table, is_integrity_error}

-- `ToolInvocation` of models.py, less the generated `id`, the key and `created_at`.
pub record ToolInvocation : Type 0 where
  pub run_id : ℕ
  pub step_idx : ℕ
  pub tool_name : String
  pub effect_class : EffectClass
  pub status : InvocationStatus
  pub result : Option String
  pub is_error : Bool
  pub completed_at : Option ℕ

abbrev pub pending_row : ℕ → ℕ → String → EffectClass → ToolInvocation
pending_row run_id step_idx tool_name effect = record {
  run_id = run_id;
  step_idx = step_idx;
  tool_name = tool_name;
  effect_class = effect;
  status = pending;
  result = none;
  is_error = false;
  completed_at = none;
}

unfoldable pub decide_from_row : EffectClass → ToolInvocation → InvocationDecision
unfolding resolve_pending
decide_from_row effect row = elim row.status [
  | succeeded ↦ record { action = replay; result = row.result; is_error = row.is_error }
  | failed ↦ record { action = replay; result = row.result; is_error = row.is_error }
  | pending ↦ decision (resolve_pending effect)
  | needs_review ↦ decision review
]

abbrev pub outcome_of_row : ToolInvocation → InvocationOutcome
outcome_of_row row = record { status = row.status; result = row.result; is_error = row.is_error }

abbrev pub finished_row : String → Bool → ℕ → ToolInvocation → ToolInvocation
finished_row result is_error now row = record row {
  status = if is_error then failed else succeeded;
  result = some result;
  is_error = is_error;
  completed_at = some now;
}

abbrev pub reviewed_row : String → ℕ → ToolInvocation → ToolInvocation
reviewed_row reason now row = record row {
  status = needs_review;
  result = some reason;
  is_error = true;
  completed_at = some now;
}

module _ {T : Type 0} (t : Table String ToolInvocation T) where
  -- `scalar_one` raises where there is no row.
  unfoldable pub decide_from_existing : String → EffectClass → T → Result InvocationDecision
  unfolding decide_from_row
  decide_from_existing key effect d = elim (t.select key d) [
    | none ↦ err (other "NoResultFound" "No row was found when one was required")
    | some row ↦ ok (decide_from_row effect row)
  ]

  unfoldable pub begin : ℕ → ℕ → String → EffectClass → String → T → Result InvocationDecision × T
  unfolding decide_from_existing is_integrity_error
  begin run_id step_idx tool_name effect key d =
      elim (t.insert key (pending_row run_id step_idx tool_name effect) d) [
        | ok d' ↦ (ok (decision execute), d')
        | err e ↦ ((if is_integrity_error e then decide_from_existing key effect d else err e), d)
      ]

  unfoldable pub lookup : String → T → Option InvocationOutcome
  lookup key d = elim (t.select key d) [ none ↦ none | some row ↦ some (outcome_of_row row) ]

  unfoldable pub complete : String → String → Bool → ℕ → T → T
  complete key result is_error now d = t.update key (finished_row result is_error now) d

  unfoldable pub mark_needs_review : String → String → ℕ → T → T
  mark_needs_review key reason now d = t.update key (reviewed_row reason now) d
