-- ===== src/Workers/Lifetime.antt =====
-- The loops and the engines that a worker process has open, through all that Celery asks of it.
use agent_force.Prelude.{
  ◌≡◌, refl, Option, none, some, String, List, [], ◌∷◌, inl, inr, Option-cases,
}
use agent_force.Errors.{Exc}
use agent_force.Effects.{ok, err, Result-cases}
use agent_force.Effects.Prog.{Prog, Call}
use agent_force.Effects.Ensures.{Ensures, Ensures-bind, Ensures-then}
use agent_force.Effects.Keeps.{CallKeeps}
use agent_force.Settings.{Settings}
use agent_force.Workers.Resources.{
  Host, WorkerResources, Process, outside, get_settings, build, resources, run_async,
  open_resources, close_resources,
}

-- What Celery asks of a worker process: the two signals and the body of a task.
pub data Event (W : Type 0) : Type 0 where
  process_init process_shutdown : Event W
  task : Call W (Unit {0}) → Event W

module _ {W L E : Type 0} where
  -- What is relied on of a host, by a relation that tells which loops and which engines are open, and by the
  -- URLs that can be parsed. Such a URL gives an engine, whether or not its database can be reached, and the
  -- settings that are read have one. A disposal leaves its engine closed even where it raises; a relation
  -- that says nothing of the engines asks nothing of disposals.
  pub record HostLaws (host : Host W L E) (Open : List L → List E → W → Type 0)
      (Parses : String → Type 0) : Type 1 where
    pub reads : (ls : List L) (es : List E) → CallKeeps (Open ls es) host.read_settings
    pub reads_url : (s : Settings) (w : W) → (host.read_settings w).0 ≡ ok s → Parses s.database_url
    pub refuses :
        (ls : List L) (es : List E) (w : W) (x : Exc)
        → Open ls es w
        → (host.new_event_loop w).0 ≡ err x
        → Open ls es (host.new_event_loop w).1
    pub creates :
        (ls : List L) (es : List E) (w : W) (l : L)
        → Open ls es w
        → (host.new_event_loop w).0 ≡ ok l
        → Open (l ∷ ls) es (host.new_event_loop w).1
    pub sets :
        (ls : List L) (es : List E) (l : L) (w : W)
        → Open ls es w
        → Open ls es (host.set_event_loop l w)
    pub builds :
        (ls : List L) (es : List E) (url : String) (w : W)
        → Parses url
        → Open ls es w
        → (e : E) × ((host.build_engine url w).0 ≡ ok e)
          × Open ls (e ∷ es) (host.build_engine url w).1
    pub runs :
        {A : Type 0} (ls : List L) (es : List E) (l : L) (coro : Call W A) (w : W)
        → Open (l ∷ ls) es w
        → host.run_until_complete l coro w ≡ coro w
    pub disposes :
        (ls : List L) (es : List E) (e : E) (w : W)
        → Open ls (e ∷ es) w
        → Open ls es (host.dispose e w).1
    pub closes :
        (ls : List L) (es : List E) (l : L) (w : W)
        → Open (l ∷ ls) es w
        → Open ls es (host.close l w)

  abbrev pub loops_of : Option (WorkerResources W L E) → List L
  loops_of none = []
  loops_of (some r) = r.loop ∷ []

  abbrev pub engines_of : Option (WorkerResources W L E) → List E
  engines_of none = []
  engines_of (some r) = r.engine ∷ []

  module _ (host : Host W L E) where
    abbrev pub handle : Event W → Prog (Process W L E) (Unit {0})
    handle process_init = open_resources host
    handle process_shutdown = close_resources host
    handle (task coro) = run_async host coro

    -- A process goes on after an exception, which Celery logs.
    abbrev pub serve : List (Event W) → Process W L E → Process W L E
    serve [] p = p
    serve (event ∷ events) p = serve events (handle event p).1

    module _ (Open : List L → List E → W → Type 0) (Parses : String → Type 0)
        (laws : HostLaws host Open Parses) where
      abbrev CacheParses : Option Settings → Type 0
      CacheParses none = Unit
      CacheParses (some s) = Parses s.database_url

      -- A process holds what is open, and nothing else is.
      abbrev pub IsTidy : Process W L E → Type 0
      IsTidy p =
          Open (loops_of p.resources) (engines_of p.resources) p.world
          × CacheParses p.cached_settings

      abbrev pub LeavesOpen : Event W → Type 0
      LeavesOpen process_init = Unit
      LeavesOpen process_shutdown = Unit
      LeavesOpen (task coro) = (ls : List L) (es : List E) → CallKeeps (Open ls es) coro

      -- What is open while a process holds nothing.
      abbrev Unheld : List L → List E → Process W L E → Type 0
      Unheld ls es p = (p.resources ≡ none) × Open ls es p.world × CacheParses p.cached_settings

      abbrev Read : Settings → Process W L E → Type 0
      Read s p = Unheld [] [] p × Parses s.database_url

      get_settings-Ensures :
          (p : Process W L E) → Unheld [] [] p → Ensures Read (Unheld [] []) (get_settings host p)
      unfolding get_settings
      get_settings-Ensures p h = elim (Option-cases p.cached_settings) [
        | inl e ↦
            let kept = laws.reads [] [] p.world h.1 in
            rw (e, get_settings)
              (Ensures-then Read (Unheld [] []) (outside host host.read_settings) _ p
                (h.0, kept, h.2)
                (λ s read. let url = laws.reads_url s p.world read in ((h.0, kept, url), url)))
        | inr (s, e) ↦ rw (e, get_settings) (h, rw e at h.2)
      ]

      -- A process that has built its resources: they are all that is open, and not stored yet.
      abbrev Built : WorkerResources W L E → Process W L E → Type 0
      Built r = Unheld (r.loop ∷ []) (r.engine ∷ [])

      build-Ensures :
          (p : Process W L E) → Unheld [] [] p → Ensures Built (Unheld [] []) (build host p)
      unfolding build
      build-Ensures p h =
          Ensures-bind Built (Unheld [] []) Read (Unheld [] []) (get_settings host) _ p
            (get_settings-Ensures p h) (λ u q. q)
            λ s q (k, url). elim (Result-cases (host.new_event_loop q.world).0) [
              | inl (l, e) ↦
                  let ready = laws.sets (l ∷ []) [] l _ (laws.creates [] [] q.world l k.1 e) in
                  let built = laws.builds (l ∷ []) [] s.database_url _ url ready in
                  rw (e, built.1) (k.0, built.2, k.2)
              | inr (x, e) ↦ rw e (k.0, laws.refuses [] [] q.world x k.1 e, k.2)
            ]

      -- The resources that a process holds.
      abbrev pub Held : WorkerResources W L E → Process W L E → Type 0
      Held r p =
          (p.resources ≡ some r)
          × Open (r.loop ∷ []) (r.engine ∷ []) p.world
          × CacheParses p.cached_settings

      pub resources-Ensures :
          (p : Process W L E) → IsTidy p → Ensures Held IsTidy (resources host p)
      unfolding resources
      resources-Ensures p h = elim (Option-cases p.resources) [
        | inl e ↦
            let now : Open [] [] p.world = rw e at h.0 in
            rw (e, resources)
              (Ensures-bind Held IsTidy Built (Unheld [] []) (build host) _ p
                (build-Ensures p (e, now, h.1)) (λ u q. rw q.0 (q.1, q.2))
                (λ r u q. (refl, q.1, q.2)))
        | inr (r, e) ↦
            let now : Open (r.loop ∷ []) (r.engine ∷ []) p.world = rw e at h.0 in
            rw (e, resources) (e, now, h.1)
      ]
