-- ===== src/Loop/Resumed.antt =====
-- A run that several workers take up, one after another.
use agent_force.Prelude.{ℕ, ◌≡◌, sym, ap, subst, ◌∙◌, ◌⊎◌, inl, inr, String, some}
use agent_force.Effects.{ok}
use agent_force.Effects.Prog.{Run, returns, raises, out_of_fuel}
use agent_force.Effects.Ensures.{Ensures}
use agent_force.State.{
  RunRecord, RunStatus, StepRecord, RunOutcome, queued, running, paused, completed, failed,
}
use agent_force.Loop.Deps.{Deps}
use agent_force.Loop.Drive.{run}
use agent_force.Loop.History.{History, history_of, IsConsistent, StoresRun}
use agent_force.Loop.Tracking.{Extends, Extends-refl, Extends-trans}
use agent_force.Loop.Untouched.{LeavesAlone}
use agent_force.Loop.Durable.{Left, Reported, IsEndStored}
use agent_force.Loop.Durability.{RepliesReplayably, run-Durable}

-- Workers take the run up, each after the one before has returned, raised or been cut off at a call; in
-- between anything happens that leaves the run alone, such as the end of a lease.
pub data TakenUp {W : Type 0} (deps : Deps W) (run_id : ℕ) (Holds : History → W → Type 0)
    (Closed : RunOutcome → History → W → Type 0) (w : W) : W → Type 0 where
  not_yet : TakenUp deps run_id Holds Closed w w
  waits :
      {v : W} (v' : W)
      → TakenUp deps run_id Holds Closed w v
      → ((h : History) → Holds h v → Holds h v')
      → ((o : RunOutcome) (h : History) → Closed o h v → Closed o h v')
      → TakenUp deps run_id Holds Closed w v'
  runs :
      {v : W} (owner : String) (r : RunRecord) (u : W)
      → TakenUp deps run_id Holds Closed w v
      → deps.store.claim run_id owner deps.lease_ttl v ≡ (ok (some r), u)
      → TakenUp deps run_id Holds Closed w (run deps run_id owner v).1

module _ {W : Type 0} (kept : StepRecord → StepRecord) (Holds : History → W → Type 0)
    (Closed : RunOutcome → History → W → Type 0) where
  -- The run goes on from its history, and is open or has ended.
  abbrev Stands : History → W → Type 0
  Stands old w =
      (h : History) × IsConsistent old.limits h
      × Extends old h
      × (Holds h w ⊎ ((o : RunOutcome) × Closed o h w))

  outcome-Stands :
      (old h : History) (o : RunOutcome) (status : RunStatus) (w : W)
      → IsConsistent old.limits h
      → Extends old h
      → IsEndStored kept Holds Closed old.limits old status o h w
      → Stands old w
  outcome-Stands old h o completed w can x (usage, end) = (h, can, x, inr (o, end))
  outcome-Stands old h o failed w can x end = (h, can, x, inr (o, end))
  outcome-Stands old h o paused w can x (usage, held) = (h, can, x, inl held)
  outcome-Stands old h o queued w can x stored = absurd stored
  outcome-Stands old h o running w can x stored = absurd stored

  -- Whichever way a run ends, from a history that goes on from another one.
  ended-Stands :
      (old h : History) (e : Run RunOutcome × W)
      → Extends old h
      → Ensures (Reported kept Holds Closed old.limits h) (Left kept Holds Closed old.limits h) e
      → Stands old e.1
  ended-Stands old h (returns o, w) x (g, can, y, steps, turns, stored) =
      outcome-Stands old g o o.status w can (Extends-trans old h g x y) stored
  ended-Stands old h (raises e, w) x (g, holds, can, y) =
      (g, can, Extends-trans old h g x y, inl holds)
  ended-Stands old h (out_of_fuel, w) x (g, holds, can, y) =
      (g, can, Extends-trans old h g x y, inl holds)

  module _ (deps : Deps W) (run_id : ℕ)
      (stores : (owner : String)
        → StoresRun deps.store run_id owner deps.lease_ttl kept Holds Closed)
      (alone : (h : History) → LeavesAlone deps (Holds h)) (replies : RepliesReplayably deps) where
    runs_again :
        (h g : History) (owner : String) (r : RunRecord) (v u : W)
        → deps.store.claim run_id owner deps.lease_ttl v ≡ (ok (some r), u)
        → IsConsistent h.limits g
        → Extends h g
        → Holds g v
        → Stands h (run deps run_id owner v).1
    runs_again h g owner r v u claimed can x held =
        let limits : r.limits ≡ h.limits =
          ap (λ y. y.limits) ((stores owner).claims g v u r held claimed).0 ∙ x.same_limits in
        ended-Stands h g (run deps run_id owner v) x (
          subst
            (λ l.
              Ensures (Reported kept Holds Closed l g) (Left kept Holds Closed l g)
                (run deps run_id owner v))
            limits
            (run-Durable deps run_id owner kept Holds Closed (stores owner) alone replies g r v u
              held claimed (subst (λ l. IsConsistent l g) (sym limits) can)))

    TakenUp-Stands :
        (h : History) (w w' : W)
        → Holds h w
        → IsConsistent h.limits h
        → TakenUp deps run_id Holds Closed w w'
        → Stands h w'
    TakenUp-Stands h w w' holds can not_yet = (h, can, Extends-refl h, inl holds)
    TakenUp-Stands h w w' holds can (waits v' t opened closed) =
        let (g, again, x, stands) = TakenUp-Stands h w _ holds can t in
        (
          g,
          again,
          x,
          elim stands [ inl held ↦ inl (opened g held) | inr (o, end) ↦ inr (o, closed o g end) ],
        )
    TakenUp-Stands h w w' holds can (runs {v} owner r u t claimed) =
        let (g, again, x, stands) = TakenUp-Stands h w v holds can t in
        elim stands [
          | inl held ↦ runs_again h g owner r v u claimed again x held
          | inr (o, end) ↦ absurd ((stores owner).refuses o g v u r end claimed)
        ]

    -- Nothing is lost, however many workers take the run up and wherever each of them breaks off: while its
    -- collaborators leave the run alone and the model's responses can be read back, the run keeps all the
    -- steps and the turns that it had, and more at the end. It has ended then, with an outcome that the
    -- store has; or it is open, and a worker that is free to take it, as an open run is lent to whoever is,
    -- claims it with just that history.
    pub TakenUp-Left :
        (Free : W → Type 0) (owner : String)
        → ((h : History) (w : W)
            → Holds h w
            → Free w
            → (r : RunRecord) × (u : W) × (deps.store.claim run_id owner deps.lease_ttl w
                ≡ (ok (some r), u)))
        → (h : History) (w w' : W) → Holds h w
        → IsConsistent h.limits h
        → TakenUp deps run_id Holds Closed w w'
        → Free w'
        → (g : History) × IsConsistent h.limits g
          × Extends h g
          × (((r : RunRecord) × (u : W) × (deps.store.claim run_id owner deps.lease_ttl w'
                  ≡ (ok (some r), u))
                × (history_of r ≡ g))
              ⊎ ((o : RunOutcome) × Closed o g w'))
    TakenUp-Left Free owner lends h w w' holds can t free =
        let (g, again, x, stands) = TakenUp-Stands h w w' holds can t in
        (
          g,
          again,
          x,
          elim stands [
            | inl held ↦
                let (r, u, claimed) = lends g w' held free in
                inl (r, u, claimed, ((stores owner).claims g w' u r held claimed).0)
            | inr end ↦ inr end
          ],
        )
