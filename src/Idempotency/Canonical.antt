-- ===== src/Idempotency/Canonical.antt =====
-- The key of a tool call whose arguments come in another order.
use agent_force.Prelude.{ℕ, String, ◌≡◌, ap}
use agent_force.Prelude.Text.{◌&◌, show_nat, show_uuid}
use agent_force.Json.{Fields}
use agent_force.Json.Reordered.{Reordered, same_fields, dumps-Same}
use agent_force.Idempotency.Key.{key_text, invocation_key}

-- A call has the same key when the fields of its arguments, or of an object inside them at any depth, come
-- in another order, for any hash: a resumed step that the model writes in another order finds its record.
pub invocation_key-Reordered :
    (sha256 : String → String) (run_id step_idx : ℕ) (tool_name : String) {fs gs : Fields}
    → Reordered fs gs
    → invocation_key sha256 run_id step_idx tool_name fs
      ≡ invocation_key sha256 run_id step_idx tool_name gs
unfolding invocation_key key_text
invocation_key-Reordered sha256 run_id step_idx tool_name p =
    ap (λ t. sha256 (show_uuid run_id & "|" & show_nat step_idx & "|" & tool_name & "|" & t))
      (dumps-Same (same_fields _ _ p))
