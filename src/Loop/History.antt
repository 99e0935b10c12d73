-- ===== src/Loop/History.antt =====
-- What the loop relies on of the run store: the history that the store holds of a run, and what each
-- operation does to it. The store of app/adapters/db/memory.py and that of run_store.py both fill it.
use agent_force.Prelude.{
  ℕ, ◌≤◌, ◌≡◌, String, true, some, List, [], ◌∷◌, ◌++◌, All, length, is_empty, if◌then◌else◌,
}
use agent_force.Errors.{step_already_committed}
use agent_force.Effects.{Result, ok, err}
use agent_force.Effects.Keeps.{CallKeeps}
use agent_force.Effects.Prog.{call}
use agent_force.Effects.Ensures.{Ensures}
use agent_force.Json.{Fields}
use agent_force.Messages.{Message, user, text_block}
use agent_force.Messages.RoundTrip.{IsReplayable}
use agent_force.State.{
  paused, is_terminal, RunLimits, RunUsage, plus, StepRecord, RunOutcome, RunRecord,
}
use agent_force.Ports.{RunStore}
use agent_force.Loop.Turns.{query_text}
use agent_force.Loop.Sound.{AreNumbered}

-- What a run resumes from.
pub record History : Type 0 where
  pub input : Fields
  pub limits : RunLimits
  pub messages : List Message
  pub steps : List StepRecord
  pub usage : RunUsage

abbrev pub history_of : RunRecord → History
history_of r = record {
  input = r.input;
  limits = r.limits;
  messages = r.messages;
  steps = r.steps;
  usage = r.usage;
}

-- The conversation that a resumed run takes up: the stored one, or the question where there is none yet.
abbrev pub conversation_of : History → List Message
conversation_of h =
    if is_empty h.messages
    then record { role = user; content = text_block (query_text h.input) ∷ [] } ∷ []
    else h.messages

-- A history to which a step and its messages are added, the step's tokens counted.
abbrev pub with_step : History → StepRecord → StepRecord → List Message → History
with_step h step stored ms = record h {
  messages = h.messages ++ ms;
  steps = h.steps ++ stored ∷ [];
  usage = plus h.usage step.usage;
}

-- What a run starts from: numbered steps, all counted, within the cap. Whether a worker may take the run
-- up is not said here.
pub record IsConsistent (limits : RunLimits) (h : History) : Type 0 where
  pub numbered : AreNumbered 0 h.steps
  pub counted : h.usage.steps ≡ length h.steps
  pub capped : h.usage.steps ≤ limits.max_steps

-- What a commit leaves: the step is there, or nothing has changed and the error does not say that it was.
abbrev pub Committed :
    {W : Type 0} → (History → W → Type 0) → History → History → Result (Unit {0}) × W → Type 0
Committed Holds h h' (ok u, w) = Holds h' w
Committed Holds h h' (err (step_already_committed m), w) = ⊥
Committed Holds h h' (err e, w) = Holds h w

-- `kept` is what the store keeps of a step, `Holds` that the run is open and has a history, and `Closed`
-- that it has ended, with an outcome and a history.
pub record StoresRun {W : Type 0} (store : RunStore W) (run_id : ℕ) (owner : String) (ttl : ℕ)
    (kept : StepRecord → StepRecord) (Holds : History → W → Type 0)
    (Closed : RunOutcome → History → W → Type 0) : Type 0 where
  pub kept_idx : (step : StepRecord) → (kept step).idx ≡ step.idx
  pub kept_again : (step : StepRecord) → kept (kept step) ≡ kept step
  pub claims :
      (h : History) (w u : W) (r : RunRecord)
      → Holds h w
      → store.claim run_id owner ttl w ≡ (ok (some r), u)
      → (history_of r ≡ h) × Holds h u
  pub commits :
      (h : History) (step : StepRecord) (ms : List Message) (w : W)
      → Holds h w
      → AreNumbered 0 h.steps
      → h.usage.steps ≡ length h.steps
      → step.idx ≡ length h.steps
      → All (λ m. All IsReplayable m.content) ms
      → Committed Holds h (with_step h step (kept step) ms) (store.commit_step run_id step ms w)
  pub retries : (h : History) → CallKeeps (Holds h) (store.record_retry run_id)
  pub renews : (h : History) → CallKeeps (Holds h) (store.renew run_id owner ttl)
  pub releases : (h : History) → CallKeeps (Holds h) (store.release run_id owner paused)
  -- The run is closed, or is open as before where the store raises.
  pub finishes :
      (h : History) (outcome : RunOutcome) (w : W)
      → Holds h w
      → is_terminal outcome.status ≡ true
      → Ensures (λ _. Closed outcome h) (Holds h) (call (store.finish run_id outcome) w)
  pub refuses :
      (o : RunOutcome) (h : History) (w u : W) (r : RunRecord)
      → Closed o h w
      → store.claim run_id owner ttl w ≡ (ok (some r), u)
      → ⊥
