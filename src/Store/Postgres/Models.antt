-- ===== src/Store/Postgres/Models.antt =====
-- The rows of app/adapters/db/models.py. A column of an enumeration's text holds the enumeration, and
-- a JSONB column the JSON value. The columns `id` and `run_id` are the keys of the tables.
use agent_force.Prelude.{ℕ, ◌≡◌, true, String, Option, some, List, nat_Eq}
use agent_force.Json.{Fields}
use agent_force.Messages.{Effort, Role, StopReason}
use agent_force.State.{RunStatus, ErrorCode}
use agent_force.Database.Tables.{Table, IsTable, Children, IsChildren}

-- `Run`
pub record RunRow : Type 0 where
  pub parent_run_id : Option ℕ
  pub tenant_id : String
  pub agent : String
  pub status : RunStatus
  pub input : Fields
  pub output : Option Fields
  pub error_code : Option ErrorCode
  pub error_message : Option String
  pub max_steps : ℕ
  pub token_budget : ℕ
  pub max_output_tokens : ℕ
  pub effort : Effort
  pub prompt_name : String
  pub prompt_version : ℕ
  pub model : String
  pub steps_taken : ℕ
  pub input_tokens : ℕ
  pub output_tokens : ℕ
  pub cache_read_tokens : ℕ
  pub retries_used : ℕ
  pub lease_owner : Option String
  pub lease_expires_at : Option ℕ
  pub idempotency_key : Option String
  pub created_at : ℕ
  pub started_at : Option ℕ
  pub completed_at : Option ℕ

-- `RunStep`
pub record StepRow : Type 0 where
  pub idx : ℕ
  pub stop_reason : StopReason
  pub input_tokens : ℕ
  pub output_tokens : ℕ
  pub cache_read_tokens : ℕ
  pub attempt : ℕ
  pub tool_calls : List Fields

-- `RunMessage`
pub record MessageRow : Type 0 where
  pub idx : ℕ
  pub role : Role
  pub content : List Fields
  pub step_idx : Option ℕ

-- The three tables, and what they hold at one time.
pub record Schema (R S M : Type 0) : Type 0 where
  pub runs : Table ℕ RunRow R
  pub steps : Children StepRow S
  pub messages : Children MessageRow M

pub record Stored (R S M : Type 0) : Type 0 where
  pub runs : R
  pub steps : S
  pub messages : M

-- `UniqueConstraint("tenant_id", "idempotency_key")`: NULL differs from NULL.
abbrev pub SameKey : RunRow → RunRow → Type 0
SameKey r s =
    (r.tenant_id ≡ s.tenant_id)
    × ((key : String) × (r.idempotency_key ≡ some key) × (s.idempotency_key ≡ some key))

pub record IsSchema {R S M : Type 0} (q : Schema R S M) : Type 0 where
  pub runs : IsTable q.runs
  pub steps : IsChildren (λ r. r.idx) q.steps
  pub messages : IsChildren (λ r. r.idx) q.messages
  pub refuses_key :
      (k : ℕ) (r s : RunRow) (d : R)
      → q.runs.select k d ≡ some s
      → SameKey r s
      → q.runs.refuses r d ≡ true
