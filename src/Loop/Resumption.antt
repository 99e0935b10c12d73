-- ===== src/Loop/Resumption.antt =====
-- What follows an attempt at a step leaves the run closed with its outcome, or open.
use agent_force.Prelude.{
  ℕ, none, some, ◌<◌, ◌≡◌, refl, ap, ◌∙◌, ◌⊎◌, inl, inr, String, List, [], ◌∷◌, ◌++◌, All, length,
  is_empty,
}
use agent_force.Errors.{Exc}
use agent_force.Effects.Prog.{Run, Prog, returns, raises, out_of_fuel, call, ◌>>=◌}
use agent_force.Effects.Ensures.{Ensures-bind}
use agent_force.Effects.Yields.{Yields}
use agent_force.Messages.{Message}
use agent_force.Messages.RoundTrip.{IsReplayable}
use agent_force.State.{RunLimits, RunUsage, plus, StepRecord, RunOutcome, completed, is_terminal}
use agent_force.Loop.Deps.{Deps}
use agent_force.Loop.Blocks.{answer_from}
use agent_force.Loop.Attempts.{Attempt}
use agent_force.Loop.Drive.{
  commit, assistant_turn, results_turn, step_of, after_calls, finish_answer, continue_calls,
  respond, stop, after_attempt,
}
use agent_force.Loop.Turns.{
  LoopState, Stop, fails, pauses, escapes, stop_for, Reading, refused, truncated, answered, called,
  reading,
}
use agent_force.Loop.History.{History, with_step, StoresRun}
use agent_force.Loop.Tracking.{
  Tracks, length-tracked, step-Tracks, unstored-AllReplayable, result_blocks-AllReplayable,
}
use agent_force.Loop.Durable.{Good, fail-Reported, pause-Reported, commit-Ensures}

module _ {W : Type 0} (deps : Deps W) (run_id : ℕ) (owner : String) (kept : StepRecord → StepRecord)
    (Holds : History → W → Type 0) (Closed : RunOutcome → History → W → Type 0)
    (stores : StoresRun deps.store run_id owner deps.lease_ttl kept Holds Closed)
    (limits : RunLimits) (begun : History) where
  abbrev pub Fine : Run RunOutcome × W → Type 0
  Fine = Good deps run_id owner kept Holds Closed stores limits begun

  -- A turn is committed, and the run goes on from a state that is tracked.
  commit_then :
      (s : LoopState) (h : History) (step : StepRecord) (usage : RunUsage) (m : Message)
      (ms : List Message) (f : Unit {0} → Prog W RunOutcome) (w : W)
      → Holds h w
      → Tracks kept limits begun s h
      → step.idx ≡ length s.steps
      → h.usage.steps < limits.max_steps
      → All (λ m. All IsReplayable m.content) (m ∷ ms)
      → let h' = with_step h step (kept step) (s.pending ++ m ∷ ms) in
        ((u : W)
          → Holds h' u
          → Tracks kept limits begun
              (record {
                usage = usage;
                messages = s.messages ++ m ∷ ms;
                pending = [];
                steps = s.steps ++ step ∷ [];
              })
              h'
          → Fine (f tt u))
        → Fine ((commit deps run_id owner step (s.pending ++ m ∷ ms) >>= f) w)
  commit_then s h step usage m ms f w holds t e below all next =
      let h' = with_step h step (kept step) (s.pending ++ m ∷ ms) in
      let t' =
        step-Tracks kept limits begun stores.kept_idx stores.kept_again s h step usage m ms t e
          below in
      Ensures-bind _ _ (λ _. Holds h') (λ u. Holds h u ⊎ Holds h' u)
        (commit deps run_id owner step (s.pending ++ m ∷ ms)) f w
        (commit-Ensures deps run_id owner kept Holds Closed stores limits begun h step
          (s.pending ++ m ∷ ms) w holds t.consistent
          (e ∙ length-tracked kept limits begun stores.kept_idx stores.kept_again s h t)
          (rw t.pending (unstored-AllReplayable h (m ∷ ms) all)))
        (λ u p. elim p [
          | inl old ↦ (h, old, t.consistent, t.extends)
          | inr new ↦ (h', new, t'.consistent, t'.extends)
        ])
        λ _ u held. next u held t'

  finish_answer-Fine :
      (s : LoopState) (h : History) (a : Attempt) (w : W)
      → Holds h w
      → Tracks kept limits begun s h
      → s.usage ≡ plus h.usage a.response.usage
      → h.usage.steps < limits.max_steps
      → All IsReplayable a.response.content
      → Fine (finish_answer deps run_id owner s a w)
  unfolding finish_answer step_of assistant_turn is_terminal
  finish_answer-Fine s h a w holds t u below all =
      let step = step_of deps run_id owner s a [] in
      let turn = assistant_turn deps run_id owner a in
      let h' = with_step h step (kept step) (s.pending ++ turn ∷ []) in
      commit_then s h step s.usage turn [] _ w holds t refl below (all, tt)
        λ v held t'.
          let outcome : RunOutcome = record {
            status = completed;
            usage = s.usage;
            messages = s.messages ++ turn ∷ [];
            steps = s.steps ++ step ∷ [];
            answer = some (answer_from a.response.content);
            error_code = none;
            error_message = none;
          } in
          Ensures-bind _ _ (λ _. Closed outcome h') (Holds h')
            (call (deps.store.finish run_id outcome)) _ v (stores.finishes h' outcome v held refl)
            (λ x left. (h', left, t'.consistent, t'.extends))
            λ _ x closed. (h', t'.consistent, t'.extends, t'.steps, t'.messages, (u, closed))

  module _ (next : LoopState → Prog W RunOutcome)
      (goes_on : (s : LoopState) (h : History) (u : W)
        → Holds h u
        → Tracks kept limits begun s h
        → s.usage ≡ h.usage
        → Fine (next s u)) where
    continue_calls-Fine :
        (s : LoopState) (h : History) (a : Attempt) (w : W)
        → Holds h w
        → Tracks kept limits begun s h
        → s.usage ≡ plus h.usage a.response.usage
        → h.usage.steps < limits.max_steps
        → All IsReplayable a.response.content
        → Fine (continue_calls deps run_id owner next s a w)
    unfolding continue_calls step_of assistant_turn results_turn after_calls
    continue_calls-Fine s h a w holds t u below all =
        let step = step_of deps run_id owner s a a.records in
        commit_then s h step s.usage (assistant_turn deps run_id owner a)
          (results_turn deps run_id owner a ∷ []) _ w holds t refl below
          (all, (result_blocks-AllReplayable a.results, tt))
          λ v held t'. goes_on (after_calls deps run_id owner s a step) _ v held t' u

    respond-Fine :
        (s : LoopState) (h : History) (a : Attempt) (w : W) (how : Reading)
        → reading a.response.stop_reason (is_empty a.records) ≡ how
        → Holds h w
        → Tracks kept limits begun s h
        → s.usage ≡ plus h.usage a.response.usage
        → h.usage.steps < limits.max_steps
        → All IsReplayable a.response.content
        → Fine (respond deps run_id owner next s a w)
    unfolding respond
    respond-Fine s h a w refused e holds t u below all =
        rw (e, respond)
          (fail-Reported deps run_id owner kept Holds Closed stores limits begun s h _ _ w holds t)
    respond-Fine s h a w truncated e holds t u below all =
        rw (e, respond)
          (fail-Reported deps run_id owner kept Holds Closed stores limits begun s h _ _ w holds t)
    respond-Fine s h a w answered e holds t u below all =
        rw (e, respond) (finish_answer-Fine s h a w holds t u below all)
    respond-Fine s h a w called e holds t u below all =
        rw (e, respond) (continue_calls-Fine s h a w holds t u below all)

    stop-Fine :
        (s : LoopState) (h : History) (e : Exc) (w : W) (how : Stop)
        → stop_for e ≡ how
        → Holds h w
        → Tracks kept limits begun s h
        → s.usage ≡ h.usage
        → Fine (stop deps run_id owner s e w)
    unfolding stop
    stop-Fine s h e w (fails code) q holds t u =
        rw (q, stop)
          (fail-Reported deps run_id owner kept Holds Closed stores limits begun s h code _ w holds
            t)
    stop-Fine s h e w (pauses code) q holds t u =
        rw (q, stop)
          (pause-Reported deps run_id owner kept Holds Closed stores limits begun s h code _ w holds
            t u)
    stop-Fine s h e w escapes q holds t u = rw (q, stop) (h, holds, t.consistent, t.extends)

    pub after_attempt-Fine :
        (s : LoopState) (h : History) (r : Run Attempt) (w : W)
        → Holds h w
        → Tracks kept limits begun s h
        → s.usage ≡ h.usage
        → h.usage.steps < limits.max_steps
        → Yields (λ a _. All IsReplayable a.response.content) (r, w)
        → Fine (after_attempt deps run_id owner next s r w)
    unfolding after_attempt
    after_attempt-Fine s h (returns a) w holds t u below all =
        respond-Fine (record s { usage = plus s.usage a.response.usage }) h a w _ refl holds
          (record {
            steps = t.steps;
            messages = t.messages;
            pending = t.pending;
            consistent = t.consistent;
            extends = t.extends;
          })
          (ap (λ x. plus x a.response.usage) u) below all
    after_attempt-Fine s h (raises e) w holds t u below all =
        stop-Fine s h e w (stop_for e) refl holds t u
    after_attempt-Fine s h out_of_fuel w holds t u below all = (h, holds, t.consistent, t.extends)
