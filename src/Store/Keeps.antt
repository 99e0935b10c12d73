-- ===== src/Store/Keeps.antt =====
-- When an operation of the store keeps its invariant.
use agent_force.Prelude.{
  ℕ, ◌≡◌, refl, false, String, List, nat_Eq, string_Eq, arith, Option-cases, inl, inr, ap, ◌∙◌, sym,
}
use agent_force.Prelude.Dict.{get}
use agent_force.Effects.{Result, ok, ◌>>=◌}
use agent_force.Messages.{Message}
use agent_force.State.{NewRun, StepRecord, no_usage, plus, is_terminal}
use agent_force.Store.Memory.{append_step, is_committed, take_lease}
use agent_force.Store.Records.{StoredRun, MemoryStore, save, keep_key, stored_at, or_same, find}
use agent_force.Store.Leases.{find-some, find-none, stored_at-some, stored_at-none}
use agent_force.Store.Invariant.{
  IsConsistent, IsValid, spent_from-snoc, AreDistinct-snoc, save-IsValid,
}

-- What an operation comes to keeps the store valid.
pub record Keeps {A : Type 0} (s : MemoryStore) (r : Result (A × MemoryStore)) : Type 0 where
  pub keeps : IsValid (or_same s r).1

-- An operation on a stored run, which raises where there is none.
module _ {A : Type 0} (s : MemoryStore) (run_id : ℕ)
    (f : StoredRun → Result (A × MemoryStore)) where
  pub stored_at-Keeps :
      IsValid s
      → ((stored : StoredRun) → IsConsistent run_id stored → Keeps s (f stored))
      → Keeps s (stored_at s run_id >>= f)
  stored_at-Keeps v next = elim (Option-cases (get s.runs run_id)) [
    | inl e ↦ rw (stored_at-none s run_id e) (record { keeps = v })
    | inr (stored, e) ↦
        rw (stored_at-some s run_id stored e) (next stored (v.at_run run_id stored e))
  ]

  pub find-Keeps :
      IsValid s
      → ((stored : StoredRun) → IsConsistent run_id stored → Keeps s (f stored))
      → Keeps s (find s run_id >>= f)
  find-Keeps v next = elim (Option-cases (get s.runs run_id)) [
    | inl e ↦ rw (find-none s run_id e) (record { keeps = v })
    | inr (stored, e) ↦ rw (find-some s run_id stored e) (next stored (v.at_run run_id stored e))
  ]

-- An operation that writes one run.
pub save-Keeps :
    {A : Type 0} (a : A) (s : MemoryStore) (run_id : ℕ) (stored : StoredRun)
    → IsValid s
    → IsConsistent run_id stored
    → Keeps s (ok (a, save s run_id stored))
save-Keeps a s run_id stored v c = record { keeps = save-IsValid s run_id stored v c }

pub append_step-IsConsistent :
    (run_id : ℕ) (stored : StoredRun) (step : StepRecord) (replayed : List Message)
    → IsConsistent run_id stored
    → is_committed step.idx stored.run.steps ≡ false
    → IsConsistent run_id (record stored { run = append_step stored.run step replayed })
unfolding append_step is_terminal
append_step-IsConsistent run_id stored step replayed c f = record {
  own_id = c.own_id;
  distinct = AreDistinct-snoc stored.run.steps step f c.distinct;
  spent =
      ap (λ u. plus u step.usage) c.spent ∙ sym (spent_from-snoc no_usage stored.run.steps step);
  same_owner = c.same_owner;
  ended_free = λ h. ground arith;
}

pub take_lease-IsConsistent :
    (run_id : ℕ) (stored : StoredRun) (owner : String) (ttl now : ℕ)
    → IsConsistent run_id stored
    → IsConsistent run_id (take_lease stored owner ttl now)
unfolding take_lease is_terminal
take_lease-IsConsistent run_id stored owner ttl now c = record {
  own_id = c.own_id;
  distinct = c.distinct;
  spent = c.spent;
  same_owner = refl;
  ended_free = λ h. ground arith;
}

pub keep_key-runs : (spec : NewRun) (id : ℕ) (s : MemoryStore) → (keep_key spec id s).runs ≡ s.runs
unfolding keep_key
keep_key-runs spec id s = elim (Option-cases spec.idempotency_key) [
  | inl e ↦ rw (e, keep_key) refl
  | inr (key, e) ↦ rw (e, keep_key) refl
]
