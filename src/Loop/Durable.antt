-- ===== src/Loop/Durable.antt =====
-- What a run of the loop leaves in the store, whichever way it ends.
use agent_force.Prelude.{ℕ, ◌≡◌, refl, ◌⊎◌, inl, inr, String, List, All, map, length}
use agent_force.Errors.{step_already_committed}
use agent_force.Effects.{Result, ok, err}
use agent_force.Effects.Prog.{Run, call, handle, as_run, try_except}
use agent_force.Effects.Ensures.{Ensures, Ensures-bind, Ensures-then, Ensures-if}
use agent_force.Messages.{Message}
use agent_force.Messages.RoundTrip.{IsReplayable}
use agent_force.State.{
  RunLimits, RunStatus, RunRecord, RunUsage, plus, StepRecord, RunOutcome, ErrorCode, queued,
  running, paused, completed, is_terminal,
}
use agent_force.State
use agent_force.Loop.Deps.{Deps}
use agent_force.Loop.Drive.{fail, pause, swallow, commit}
use agent_force.Loop.Turns.{LoopState, ended}
use agent_force.Loop.History.{
  History, conversation_of, with_step, IsConsistent, Committed, StoresRun,
}
use agent_force.Loop.Tracking.{Extends, Tracks}

module _ {W : Type 0} (kept : StepRecord → StepRecord) (Holds : History → W → Type 0)
    (Closed : RunOutcome → History → W → Type 0) (limits : RunLimits) (start : History) where
  -- The run is open, with all that it had and more.
  abbrev pub Left : W → Type 0
  Left w = (h : History) × Holds h w × IsConsistent limits h × Extends start h

  -- How the end is stored: a completed or failed run is closed, with its outcome, and a paused one is open.
  -- The tokens of a failed run may be more than those that are stored, since a response that was refused or
  -- truncated is counted and not committed.
  abbrev pub IsEndStored : RunStatus → RunOutcome → History → W → Type 0
  IsEndStored completed o h w = (o.usage ≡ h.usage) × Closed o h w
  IsEndStored State.failed o h w = Closed o h w
  IsEndStored paused o h w = (o.usage ≡ h.usage) × Holds h w
  IsEndStored queued o h w = ⊥
  IsEndStored running o h w = ⊥

  -- The outcome is what the store has.
  abbrev pub Reported : RunOutcome → W → Type 0
  Reported o w =
      (h : History) × IsConsistent limits h
      × Extends start h
      × (map kept o.steps ≡ map kept h.steps)
      × (o.messages ≡ conversation_of h)
      × IsEndStored o.status o h w

module _ {W : Type 0} (deps : Deps W) (run_id : ℕ) (owner : String) (kept : StepRecord → StepRecord)
    (Holds : History → W → Type 0) (Closed : RunOutcome → History → W → Type 0)
    (stores : StoresRun deps.store run_id owner deps.lease_ttl kept Holds Closed)
    (limits : RunLimits) (start : History) where
  abbrev pub Good : Run RunOutcome × W → Type 0
  Good = Ensures (Reported kept Holds Closed limits start) (Left kept Holds Closed limits start)

  pub fail-Reported :
      (s : LoopState) (h : History) (code : ErrorCode) (m : String) (w : W)
      → Holds h w
      → Tracks kept limits start s h
      → Good (fail deps run_id owner s code m w)
  unfolding fail is_terminal
  fail-Reported s h code m w holds t =
      let outcome = ended State.failed s code m in
      Ensures-bind _ _ (λ _. Closed outcome h) (Holds h) (call (deps.store.finish run_id outcome)) _
        w (stores.finishes h outcome w holds refl) (λ u held. (h, held, t.consistent, t.extends))
        λ _ u closed. (h, t.consistent, t.extends, t.steps, t.messages, closed)

  pub pause-Reported :
      (s : LoopState) (h : History) (code : ErrorCode) (m : String) (w : W)
      → Holds h w
      → Tracks kept limits start s h
      → s.usage ≡ h.usage
      → Good (pause deps run_id owner s code m w)
  unfolding pause
  pause-Reported s h code m w holds t u =
      let after = stores.releases h w holds in
      Ensures-then _ _ (deps.store.release run_id owner paused) _ w
        (h, after, t.consistent, t.extends)
        λ _ e. (h, t.consistent, t.extends, t.steps, t.messages, (u, after))

  Committed-Ensures :
      (h h' : History) (r : Result (Unit {0})) (w : W)
      → Committed Holds h h' (r, w)
      → Ensures (λ _. Holds h') (Holds h) (handle (as_run r) (swallow deps run_id owner) w)
  unfolding swallow
  Committed-Ensures h h' (ok u) w p = p
  Committed-Ensures h h' (err (step_already_committed m)) w p = absurd p
  Committed-Ensures h h' (err e) w p = p

  -- A commit stores the step, or raises; if the lease is lost then, the step is stored all the same.
  pub commit-Ensures :
      (h : History) (step : StepRecord) (ms : List Message) (w : W)
      → Holds h w
      → IsConsistent limits h
      → step.idx ≡ length h.steps
      → All (λ m. All IsReplayable m.content) ms
      → let h' = with_step h step (kept step) ms in
        Ensures (λ _. Holds h') (λ u. Holds h u ⊎ Holds h' u) (commit deps run_id owner step ms w)
  unfolding commit
  commit-Ensures h step ms w holds can e all =
      let h' = with_step h step (kept step) ms in
      Ensures-bind _ _ (λ _. Holds h') (Holds h)
        (try_except (call (deps.store.commit_step run_id step ms)) (swallow deps run_id owner)) _ w
        (Committed-Ensures h h' _ _
          (stores.commits h step ms w holds can.numbered can.counted e all))
        (λ u. inl)
        λ _ u held.
          Ensures-then _ _ (deps.store.renew run_id owner deps.lease_ttl) _ u
            (inr (stores.renews h' u held))
            λ b _. Ensures-if _ _ b _ _ _ (stores.renews h' u held) (inr (stores.renews h' u held))
