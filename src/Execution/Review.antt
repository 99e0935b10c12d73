-- ===== src/Execution/Review.antt =====
-- An interrupted call of an unsafe tool: app/core/tools/execution.py and `resolve_pending`.
use agent_force.Prelude.{◌≡◌, refl, ◌∙◌, ℕ, true, String, some, string_Eq}
use agent_force.Prelude.Dict.{get}
use agent_force.Effects.{ok}
use agent_force.Effects.Prog.{returns}
use agent_force.Json.{Json, Fields}
use agent_force.Tools.Spec.{ToolSpec, validate_input, unsafe, EffectClass}
use agent_force.Tools.Registry.{Registry, lookup}
use agent_force.Idempotency.{
  InvocationOutcome, pending, needs_review, decision, review, resolve_pending,
}
use agent_force.World.{World}
use agent_force.Ledger.Memory.{Invocation, decide}
use agent_force.Ledger.Rows.{mark_needs_review-some, reviewed}
use agent_force.Execution.{act, review_reason}
use agent_force.Execution.Once.{execution}
use agent_force.Execution.Replay.{at_row}

abbrev pub review_outcome : String → InvocationOutcome
review_outcome tool_name = record {
  status = needs_review;
  result = some (review_reason tool_name);
  is_error = true;
}

decide-pending :
    (effect : EffectClass) (row : Invocation)
    → row.status ≡ pending
    → decide effect row ≡ decision (resolve_pending effect)
unfolding decide
decide-pending effect row h = rw (h, decide) refl

resolve_pending-unsafe :
    (effect : EffectClass) → effect ≡ unsafe → decision (resolve_pending effect) ≡ decision review
unfolding resolve_pending
resolve_pending-unsafe effect h = rw h refl

module _ {E : Type 0} (registry : Registry (World E)) (run_id step_idx : ℕ) (tool_name : String)
    (args : Fields) (key : String) where
  -- Where the earlier attempt at an unsafe call never came to an end, the handler is not run: a valid
  -- call is answered with a request for a review, which the ledger then holds, and nothing else
  -- in the world changes.
  pub unsafe_interrupted :
      (w : World E) (spec : ToolSpec (World E)) (payload : Json) (row : Invocation)
      → lookup registry tool_name ≡ ok spec
      → validate_input spec args ≡ ok payload
      → spec.effect_class ≡ unsafe
      → get w.ledger.rows key ≡ some row
      → row.status ≡ pending
      → execution registry run_id step_idx tool_name args key w ≡ (
        returns (review_outcome tool_name),
        record w { ledger = reviewed key (review_reason tool_name) row w.ledger },
      )
  unfolding act
  unsafe_interrupted w spec payload row e h u g p =
      at_row registry run_id step_idx tool_name args key w spec payload row e h g
      ∙ rw (decide-pending spec.effect_class row p ∙ resolve_pending-unsafe spec.effect_class u)
          (rw (mark_needs_review-some key (review_reason tool_name) row w.ledger g) refl)
