-- ===== src/Idempotency/Key.antt =====
-- `invocation_key`.
use agent_force.Prelude.{ℕ, String}
use agent_force.Prelude.Text.{◌&◌, show_nat, show_uuid}
use agent_force.Json.{Fields, obj, dumps}

-- The text that is hashed.
unfoldable pub key_text : ℕ → ℕ → String → Fields → String
unfolding show_uuid show_nat dumps
key_text run_id step_idx tool_name args =
    show_uuid run_id & "|" & show_nat step_idx & "|" & tool_name & "|" & dumps (obj args)

unfoldable pub invocation_key : (String → String) → ℕ → ℕ → String → Fields → String
unfolding key_text
invocation_key sha256 run_id step_idx tool_name args =
    sha256 (key_text run_id step_idx tool_name args)
