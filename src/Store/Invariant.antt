-- ===== src/Store/Invariant.antt =====
-- What holds of every run of the store, whatever its history.
use agent_force.Prelude.{
  ℕ, ◌≡◌, refl, true, false, ◌||◌, none, some, List, [], ◌∷◌, ◌++◌, nat_Eq, string_Eq, arith,
  Bool-cases, inl, inr, nat_eq,
}
use agent_force.Prelude.Dict.{get, get-put}
use agent_force.State.{RunUsage, StepRecord, no_usage, plus, is_terminal}
use agent_force.Store.Memory.{is_committed}
use agent_force.Store.Records.{StoredRun, MemoryStore, save}

-- The tokens of the steps, added up.
abbrev pub spent_from : RunUsage → List StepRecord → RunUsage
spent_from u [] = u
spent_from u (step ∷ steps) = spent_from (plus u step.usage) steps

abbrev pub AreDistinct : List StepRecord → Type 0
AreDistinct [] = Unit
AreDistinct (step ∷ steps) = (is_committed step.idx steps ≡ false) × AreDistinct steps

pub record IsConsistent (run_id : ℕ) (stored : StoredRun) : Type 0 where
  pub own_id : stored.run.id ≡ run_id
  pub distinct : AreDistinct stored.run.steps
  pub spent : stored.run.usage ≡ spent_from no_usage stored.run.steps
  pub same_owner : stored.run.lease_owner ≡ stored.owner
  pub ended_free : is_terminal stored.run.status ≡ true → stored.owner ≡ none

pub record IsValid (s : MemoryStore) : Type 0 where
  pub at_run :
      (run_id : ℕ) (stored : StoredRun)
      → get s.runs run_id ≡ some stored
      → IsConsistent run_id stored

pub spent_from-snoc :
    (u : RunUsage) (steps : List StepRecord) (step : StepRecord)
    → spent_from u (steps ++ step ∷ []) ≡ plus (spent_from u steps) step.usage
spent_from-snoc u [] step = refl
spent_from-snoc u (first ∷ steps) step = spent_from-snoc (plus u first.usage) steps step

is_committed-snoc :
    (idx : ℕ) (steps : List StepRecord) (step : StepRecord)
    → is_committed idx (steps ++ step ∷ []) ≡ (is_committed idx steps || nat_eq step.idx idx)
unfolding is_committed
is_committed-snoc idx [] step = ground arith
is_committed-snoc idx (first ∷ steps) step = ground (arith, is_committed-snoc idx steps step)

pub AreDistinct-snoc :
    (steps : List StepRecord) (step : StepRecord)
    → is_committed step.idx steps ≡ false
    → AreDistinct steps
    → AreDistinct (steps ++ step ∷ [])
unfolding is_committed
AreDistinct-snoc [] step f d = (refl, tt)
AreDistinct-snoc (first ∷ steps) step f d = (
  ground (arith, is_committed-snoc first.idx steps step, d.0),
  AreDistinct-snoc steps step (ground arith) d.1,
)

pub save-IsValid :
    (s : MemoryStore) (run_id : ℕ) (stored : StoredRun)
    → IsValid s
    → IsConsistent run_id stored
    → IsValid (save s run_id stored)
save-IsValid s run_id stored v c = record {
  at_run = λ other found h. elim (Bool-cases (nat_eq run_id other)) [
    | inl e ↦
        let w : found ≡ stored = ground (arith, get-put s.runs run_id other stored) in
        let i : other ≡ run_id = ground (arith) in rw (w, i) c
    | inr e ↦ v.at_run other found (ground (arith, get-put s.runs run_id other stored))
  ];
}
