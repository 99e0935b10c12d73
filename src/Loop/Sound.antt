-- ===== src/Loop/Sound.antt =====
-- What is sound of an outcome, and of the local variables of `run` on the way to it.
use agent_force.Prelude.{ℕ, ◌+◌, ◌≤◌, ◌≡◌, String, none, some, List, [], ◌∷◌, ◌++◌, arith, length}
use agent_force.State.{
  RunLimits, RunRecord, RunUsage, plus, StepRecord, RunOutcome, ErrorCode, queued, running, paused,
  completed,
}
use agent_force.State
use agent_force.Loop.Turns.{LoopState}

abbrev pub HasCode : RunOutcome → Type 0
HasCode o = ((code : ErrorCode) × (o.error_code ≡ some code)) × (o.answer ≡ none)

-- A completed run has an answer and no code; a failed or paused one has a code and no answer.
abbrev pub IsEnded : RunOutcome → Type 0
IsEnded o = elim o.status [
  | completed ↦ ((text : String) × (o.answer ≡ some text)) × (o.error_code ≡ none)
  | State.failed ↦ HasCode o
  | paused ↦ HasCode o
  | queued ↦ ⊥
  | running ↦ ⊥
]

abbrev pub AreNumbered : ℕ → List StepRecord → Type 0
AreNumbered n [] = Unit
AreNumbered n (step ∷ steps) = (step.idx ≡ n) × AreNumbered (n + 1) steps

pub record IsSound (limits : RunLimits) (o : RunOutcome) : Type 0 where
  pub ended : IsEnded o
  pub numbered : AreNumbered 0 o.steps
  pub capped : o.usage.steps ≤ limits.max_steps
  pub counted : (length o.steps ≤ o.usage.steps) × (o.usage.steps ≤ length o.steps + 1)

-- The steps of a loop's state, of which `extra` more are counted than are listed.
pub record IsTracked (limits : RunLimits) (extra : ℕ) (s : LoopState) : Type 0 where
  pub numbered : AreNumbered 0 s.steps
  pub capped : s.usage.steps ≤ limits.max_steps
  pub counted : s.usage.steps ≡ length s.steps + extra

pub AreNumbered-snoc :
    (n : ℕ) (steps : List StepRecord) (step : StepRecord)
    → AreNumbered n steps
    → step.idx ≡ n + length steps
    → AreNumbered n (steps ++ step ∷ [])
AreNumbered-snoc n [] step h e = (omega arith, tt)
AreNumbered-snoc n (first ∷ steps) step h e =
    (h.0, AreNumbered-snoc (n + 1) steps step h.1 (omega arith))
