-- ===== src/Workers/Sharing.antt =====
-- What the tasks of one worker process share.
use agent_force.Prelude.{◌≡◌, refl, ap, String, List, [], ◌∷◌, All}
use agent_force.Effects.Prog.{Call, returns, as_run, call}
use agent_force.Effects.Keeps.{CallKeeps}
use agent_force.Workers.Resources.{
  Host, WorkerResources, Process, outside, resources, run_async, open_resources,
}
use agent_force.Workers.Lifetime.{
  Event, process_init, process_shutdown, task, HostLaws, handle, serve, Held, IsTidy,
  resources-Ensures,
}

module _ {W L E : Type 0} (host : Host W L E) (Open : List L → List E → W → Type 0)
    (Parses : String → Type 0) (laws : HostLaws host Open Parses) (r : WorkerResources W L E) where
  run_async-Held :
      {A : Type 0} (coro : Call W A) (p : Process W L E)
      → Held host Open Parses laws r p
      → run_async host coro p ≡ call (outside host coro) p
  unfolding run_async resources
  run_async-Held coro p h =
      rw (h.0, resources, laws.runs [] (r.engine ∷ []) r.loop coro p.world h.1)
        (ap (λ x. (as_run (coro p.world).0, record p { resources = x; world = (coro p.world).1 }))
          h.0)

  -- An event of a process that goes on.
  abbrev pub GoesOn : Event W → Type 0
  GoesOn process_init = Unit
  GoesOn process_shutdown = ⊥
  GoesOn (task coro) = (ls : List L) (es : List E) → CallKeeps (Open ls es) coro

  handle-Held :
      (event : Event W) (p : Process W L E)
      → GoesOn event
      → Held host Open Parses laws r p
      → Held host Open Parses laws r (handle host event p).1
  unfolding open_resources resources
  handle-Held process_init p go h = rw (h.0, resources) h
  handle-Held process_shutdown p go h = absurd go
  handle-Held (task coro) p go h =
      rw (run_async-Held coro p h) (h.0, go (r.loop ∷ []) (r.engine ∷ []) p.world h.1, h.2)

  serve-Held :
      (events : List (Event W)) (p : Process W L E)
      → All GoesOn events
      → Held host Open Parses laws r p
      → Held host Open Parses laws r (serve host events p)
  serve-Held [] p go h = h
  serve-Held (event ∷ events) p go h =
      serve-Held events (handle host event p).1 go.1 (handle-Held event p go.0 h)

  -- On a host that keeps the laws, where the tasks open and close nothing of their own: once a process that
  -- held exactly what was open, nothing included, has got its resources, it gets the same ones after any
  -- events without a shutdown, with nothing built in between; and a task then has the outcome of its
  -- coroutine, and changes the outside world as the coroutine does and nothing else.
  pub run_async-after :
      {A : Type 0} (events : List (Event W)) (coro : Call W A) (p q : Process W L E)
      → All GoesOn events
      → IsTidy host Open Parses laws p
      → resources host p ≡ (returns r, q)
      → let u = serve host events q in
        (resources host u ≡ (returns r, u))
        × Open (r.loop ∷ []) (r.engine ∷ []) u.world
        × (run_async host coro u ≡ (as_run (coro u.world).0, record u { world = (coro u.world).1 }))
  unfolding resources
  run_async-after events coro p q go tidy got =
      let first : Held host Open Parses laws r q =
        rw got at (resources-Ensures host Open Parses laws p tidy) in
      let held = serve-Held events q go first in
      (rw (held.0, resources) refl, held.1, run_async-Held coro _ held)
