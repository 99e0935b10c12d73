-- ===== src/Store/Records.antt =====
-- The records of `InMemoryRunStore` of app/adapters/db/memory.py, and the helpers of its operations.
use agent_force.Prelude.{
  ℕ, Bool, true, ◌&&◌, String, Option, none, some, [], nat_Eq, string_Eq, str_eq, Eq, ◌↔◌, ◌≡◌, ◌*◌,
  arith, str_eq_iff,
}
use agent_force.Prelude.Dict.{Dict, get, put}
use agent_force.Prelude.Text.{◌&◌, show_uuid}
use agent_force.Errors.{run_not_found, key_error}
use agent_force.Effects.{Result, ok, err}
use agent_force.State.{queued, NewRun, RunRecord, no_usage}

-- `_StoredRun`
pub record StoredRun : Type 0 where
  pub run : RunRecord
  pub owner : Option String
  pub expires : Option ℕ

pub record MemoryStore : Type 0 where
  pub runs : Dict ℕ StoredRun
  pub by_key : Dict (String × String) ℕ

abbrev pub empty_store : MemoryStore
empty_store = record { runs = []; by_key = [] }

pub pair_beq : String × String → String × String → Bool
pair_beq (a, b) (c, d) = str_eq a c && str_eq b d

pub pair_beq_iff : (p q : String × String) → (pair_beq p q ≡ true) ↔ (p ≡ q)
unfolding pair_beq
pair_beq_iff (a, b) (c, d) = ground (arith, str_eq_iff a c, str_eq_iff b d)

instance abbrev pub pair_Eq : Eq (String × String)
pair_Eq = record { beq = pair_beq; beq_iff = pair_beq_iff }

abbrev pub no_run : {A : Type 0} → ℕ → Result A
no_run run_id = err (run_not_found ("No run with id " & show_uuid run_id & "."))

-- `self._runs.get(run_id)`, and a raise where there is none
unfoldable pub find : MemoryStore → ℕ → Result StoredRun
unfolding get
find s run_id = elim (get s.runs run_id) [ none ↦ no_run run_id | some stored ↦ ok stored ]

-- `self._runs[run_id]`
unfoldable pub stored_at : MemoryStore → ℕ → Result StoredRun
unfolding get
stored_at s run_id = elim (get s.runs run_id) [
  | none ↦ err (key_error (show_uuid run_id))
  | some stored ↦ ok stored
]

abbrev pub save : MemoryStore → ℕ → StoredRun → MemoryStore
save s run_id stored = record s { runs = put s.runs run_id stored }

-- An operation that may raise and changes the store only if it does not.
abbrev pub or_same {ℓ} :
    {A : Type ℓ} → MemoryStore → Result (A × MemoryStore) → Result A × MemoryStore
or_same s (ok (a, s')) = (ok a, s')
or_same s (err e) = (err e, s)

-- The clock counts microseconds.
abbrev pub seconds : ℕ → ℕ
seconds n = n * 1000000

unfoldable pub new_record : NewRun → ℕ → RunRecord
new_record spec id = record {
  id = id;
  agent = spec.agent;
  status = queued;
  input = spec.input;
  limits = spec.limits;
  effort = spec.effort;
  prompt_name = spec.prompt_name;
  prompt_version = spec.prompt_version;
  model = spec.model;
  usage = no_usage;
  messages = [];
  steps = [];
  retries_used = 0;
  tenant_id = spec.tenant_id;
  parent_run_id = spec.parent_run_id;
  answer = none;
  error_code = none;
  error_message = none;
  lease_owner = none;
  lease_expires_at = none;
}

unfoldable pub keep_key : NewRun → ℕ → MemoryStore → MemoryStore
unfolding put
keep_key spec id s = elim spec.idempotency_key [
  | none ↦ s
  | some key ↦ record s { by_key = put s.by_key (spec.tenant_id, key) id }
]

-- `create` where no earlier run has the key.
unfoldable pub insert_new : NewRun → ℕ → MemoryStore → Result RunRecord × MemoryStore
unfolding new_record keep_key put
insert_new spec id s =
    let stored : StoredRun = record { run = new_record spec id; owner = none; expires = none } in
    (ok stored.run, keep_key spec id (save s id stored))

unfoldable pub existing_run : NewRun → MemoryStore → Option ℕ
unfolding get
existing_run spec s = elim spec.idempotency_key [
  | none ↦ none
  | some key ↦ get s.by_key (spec.tenant_id, key)
]
