-- ===== src/Ledger/Memory.antt =====
-- `InMemoryToolLedger` of app/adapters/db/memory.py.
use agent_force.Prelude.{
  Bool, true, false, String, Option, none, some, List, [], ◌∷◌, ◌++◌, string_Eq,
}
use agent_force.Prelude.Dict.{Dict, get, put}
use agent_force.Errors.{key_error}
use agent_force.Effects.{Result, ok, err}
use agent_force.Tools.Spec.{EffectClass}
use agent_force.Idempotency.{
  InvocationStatus, pending, succeeded, failed, needs_review, execute, replay, review,
  InvocationDecision, decision, InvocationOutcome, resolve_pending,
}

-- `_Invocation`
pub record Invocation : Type 0 where
  pub status : InvocationStatus
  pub effect_class : EffectClass
  pub result : Option String
  pub is_error : Bool

pub record Ledger : Type 0 where
  pub rows : Dict String Invocation
  pub executions : List String

abbrev pub empty_ledger : Ledger
empty_ledger = record { rows = []; executions = [] }

abbrev pub new_invocation : EffectClass → Invocation
new_invocation effect = record {
  status = pending;
  effect_class = effect;
  result = none;
  is_error = false;
}

-- The `match existing.status`.
unfoldable pub decide : EffectClass → Invocation → InvocationDecision
unfolding resolve_pending
decide effect row = elim row.status [
  | pending ↦ decision (resolve_pending effect)
  | needs_review ↦ decision review
  | _ ↦ record { action = replay; result = row.result; is_error = row.is_error }
]

unfoldable pub begin : EffectClass → String → Ledger → InvocationDecision × Ledger
unfolding get put decide
begin effect key l = elim (get l.rows key) [
  | none ↦ (decision execute, record l { rows = put l.rows key (new_invocation effect) })
  | some row ↦ (decide effect row, l)
]

abbrev pub outcome_of : Invocation → InvocationOutcome
outcome_of row = record { status = row.status; result = row.result; is_error = row.is_error }

unfoldable pub lookup : String → Ledger → Option InvocationOutcome
unfolding get
lookup key l = elim (get l.rows key) [ none ↦ none | some row ↦ some (outcome_of row) ]

abbrev pub done_status : Bool → InvocationStatus
done_status true = failed
done_status false = succeeded

unfoldable pub complete : String → String → Bool → Ledger → Result (Unit {0}) × Ledger
unfolding get put
complete key result is_error l = elim (get l.rows key) [
  | none ↦ (err (key_error key), l)
  | some row ↦ (
    ok tt,
    record {
      rows =
          put l.rows key (record row {
            status = done_status is_error;
            result = some result;
            is_error = is_error;
          });
      executions = l.executions ++ key ∷ [];
    },
  )
]

unfoldable pub mark_needs_review : String → String → Ledger → Result (Unit {0}) × Ledger
unfolding get put
mark_needs_review key reason l = elim (get l.rows key) [
  | none ↦ (err (key_error key), l)
  | some row ↦ (
    ok tt,
    record l {
      rows =
          put l.rows key
            (record row { status = needs_review; result = some reason; is_error = true });
    },
  )
]
