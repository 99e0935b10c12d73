-- ===== src/Loop/Durability.antt =====
-- The durability of a run: `run` from its claim to its end.
use agent_force.Prelude.{ℕ, zero, suc, ◌≡◌, refl, subst, inl, inr, String, some, All, length}
use agent_force.Effects.{Result-cases, ok}
use agent_force.Effects.Prog.{Run, Prog}
use agent_force.Effects.Ensures.{Ensures, Ensures-lift_then}
use agent_force.Messages.{LlmResponse}
use agent_force.Messages.RoundTrip.{IsReplayable}
use agent_force.State.{RunRecord, StepRecord, RunOutcome}
use agent_force.Policy.{check}
use agent_force.Ports.{Request}
use agent_force.Loop.Deps.{Deps}
use agent_force.Loop.Drive.{request_for, round, drive, start, run}
use agent_force.Loop.Turns.{LoopState, initial}
use agent_force.Loop.Rounds.{check-below_cap}
use agent_force.Loop.Replies.{attempt_step-Answers}
use agent_force.Loop.History.{History, history_of, IsConsistent, StoresRun}
use agent_force.Loop.Tracking.{Tracks, initial-Tracks}
use agent_force.Loop.Untouched.{LeavesAlone}
use agent_force.Loop.Untouched.Step.{attempt_step-Keeps}
use agent_force.Loop.Durable.{Left, Reported, Good, fail-Reported}
use agent_force.Loop.Resumption.{after_attempt-Fine}

-- The model's responses can be stored and read back.
abbrev pub RepliesReplayably : {W : Type 0} → Deps W → Type 0
RepliesReplayably {W} deps =
    (request : Request) (response : LlmResponse) (w : W)
    → (deps.llm.complete request w).0 ≡ ok response
    → All IsReplayable response.content

module _ {W : Type 0} (deps : Deps W) (run_id : ℕ) (owner : String) (kept : StepRecord → StepRecord)
    (Holds : History → W → Type 0) (Closed : RunOutcome → History → W → Type 0)
    (stores : StoresRun deps.store run_id owner deps.lease_ttl kept Holds Closed)
    (alone : (h : History) → LeavesAlone deps (Holds h)) (replies : RepliesReplayably deps) where
  module _ (r : RunRecord) where
    abbrev Fine : Run RunOutcome × W → Type 0
    Fine = Good deps run_id owner kept Holds Closed stores r.limits (history_of r)

    abbrev GoesOn : (LoopState → Prog W RunOutcome) → Type 0
    GoesOn next =
        (s : LoopState) (h : History) (u : W)
        → Holds h u
        → Tracks kept r.limits (history_of r) s h
        → s.usage ≡ h.usage
        → Fine (next s u)

    round-GoesOn :
        (prompt : String) (next : LoopState → Prog W RunOutcome)
        → GoesOn next
        → GoesOn (round deps run_id owner r prompt next)
    unfolding round
    round-GoesOn prompt next goes_on s h w holds t u =
        elim (Result-cases (check r.limits s.usage)) [
          | inl (done, e) ↦
              let request = request_for deps run_id owner r prompt s in
              rw (e, round)
                (after_attempt-Fine deps run_id owner kept Holds Closed stores r.limits
                  (history_of r) next goes_on s h _ _
                  (attempt_step-Keeps deps (Holds h) (alone h) run_id (length s.steps) request
                    r.limits (stores.retries h) w holds)
                  t u (rw u at (check-below_cap r.limits s.usage e))
                  (attempt_step-Answers deps (λ response. All IsReplayable response.content) replies
                    run_id (length s.steps) request r.limits w))
          | inr (x, e) ↦
              rw (e, round)
                (fail-Reported deps run_id owner kept Holds Closed stores r.limits (history_of r) s
                  h _ _ w holds t)
        ]

    drive-GoesOn : (prompt : String) (fuel : ℕ) → GoesOn (drive deps run_id owner r prompt fuel)
    unfolding drive
    drive-GoesOn prompt zero = λ s h w holds t u. (h, holds, t.consistent, t.extends)
    drive-GoesOn prompt (suc fuel) =
        round-GoesOn prompt (drive deps run_id owner r prompt fuel) (drive-GoesOn prompt fuel)

    start-Fine :
        (w : W)
        → Holds (history_of r) w
        → IsConsistent r.limits (history_of r)
        → Fine (start deps run_id owner (some r) w)
    unfolding start initial
    start-Fine w holds can =
        let t = initial-Tracks kept r.limits r can in
        Ensures-lift_then _ _ (deps.load_prompt r.prompt_name r.prompt_version) _ w
          (history_of r, holds, t.consistent, t.extends)
          λ prompt.
            drive-GoesOn prompt (suc r.limits.max_steps) (initial r) (history_of r) w holds t refl

  -- From a claimed run whose steps are numbered, all counted and within the cap, while its collaborators
  -- leave the run alone and the model's responses can be read back: however the run ends, the store then
  -- has all the steps and the turns that it had and more at the end, numbered, counted and capped again.
  -- Where it returns completed or failed, the run is closed with that outcome; where it returns paused, or
  -- raises, the run is open. The outcome that is returned has the steps, as far as the store keeps them, and
  -- the conversation that the store has, and its tokens too unless the run failed.
  pub run-Durable :
      (h : History) (r : RunRecord) (w u : W)
      → Holds h w
      → deps.store.claim run_id owner deps.lease_ttl w ≡ (ok (some r), u)
      → IsConsistent r.limits h
      → Ensures
          (Reported kept Holds Closed r.limits h)
          (Left kept Holds Closed r.limits h)
          (run deps run_id owner w)
  unfolding run
  run-Durable h r w u holds claimed can =
      let (same, held) = stores.claims h w u r holds claimed in
      rw (claimed, run)
        (subst
          (λ x.
            Ensures (Reported kept Holds Closed r.limits x) (Left kept Holds Closed r.limits x)
              (start deps run_id owner (some r) u))
          same (start-Fine r u (rw same held) (rw same can)))
