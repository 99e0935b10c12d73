-- ===== src/Loop/Outcomes.antt =====
-- What `run` returns: an end of a fitting shape, the steps numbered in order, and the cap kept.
use agent_force.Prelude.{ℕ, String}
use agent_force.Effects.Prog.{Prog}
use agent_force.Effects.Yields.{Yields}
use agent_force.State.{RunLimits, RunUsage, RunOutcome, queued, running, completed}
use agent_force.State
use agent_force.Loop.Deps.{Deps}
use agent_force.Loop.Sound.{IsSound}

module _ {W : Type 0} (deps : Deps W) (run_id : ℕ) (owner : String) (limits : RunLimits) where
  abbrev Sound : RunOutcome → W → Type 0
  Sound o w = IsSound limits o
