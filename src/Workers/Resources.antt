-- ===== src/Workers/Resources.antt =====
-- app/workers/runtime.py and `get_settings` of app/settings.py: what a worker process owns. asyncio, the
-- engine of SQLAlchemy, the reading of the environment and the ledger over the sessions of an engine are
-- given. The module's `_resources` and the cache of `get_settings` are fields of the process.
use agent_force.Prelude.{Option, none, some, String}
use agent_force.Effects.Prog.{Prog, Call, pure, call, lift, ◌>>=◌, ◌>>◌}
use agent_force.Settings.{Settings}
use agent_force.Ports.{ToolLedger}
use agent_force.Tools.Spec.{InputModel}
use agent_force.Tools.Registry.{Registry}
use agent_force.Tools.Builtin.{Python, build_default_registry}

-- What the process is given, for loops `L` and engines `E`.
pub record Host (W L E : Type 0) : Type 1 where
  pub read_settings : Call W Settings
  pub new_event_loop : Call W L
  pub set_event_loop : L → W → W
  pub run_until_complete : {A : Type 0} → L → Call W A → Call W A
  pub close : L → W → W
  pub build_engine : String → Call W E
  pub dispose : E → Call W (Unit {0})
  pub ledger : E → ToolLedger W
  pub python : Python
  pub now_input : InputModel
  pub now : Call W String

pub record WorkerResources (W L E : Type 0) : Type 0 where
  pub loop : L
  pub engine : E
  pub ledger : ToolLedger W
  pub registry : Registry W
  pub settings : Settings

pub record Process (W L E : Type 0) : Type 0 where
  pub resources : Option (WorkerResources W L E)
  pub cached_settings : Option Settings
  pub world : W

module _ {W L E : Type 0} (host : Host W L E) where
  -- A call of the outside world, which does not reach the module's own state.
  abbrev pub outside : {A : Type 0} → Call W A → Call (Process W L E) A
  outside c p = let (r, w) = c p.world in (r, record p { world = w })

  abbrev pub touch : (W → W) → Process W L E → Process W L E
  touch f p = record p { world = f p.world }

  abbrev cache_settings : Settings → Prog (Process W L E) Settings
  cache_settings s p = pure s (record p { cached_settings = some s })

  unfoldable pub get_settings : Prog (Process W L E) Settings
  get_settings p = elim p.cached_settings [
    | none ↦ (call (outside host.read_settings) >>= cache_settings) p
    | some s ↦ pure s p
  ]

  abbrev pub setting_loop : L → Prog (Process W L E) (Unit {0})
  setting_loop loop p = pure tt (touch (host.set_event_loop loop) p)

  unfoldable pub build : Prog (Process W L E) (WorkerResources W L E)
  unfolding get_settings build_default_registry
  build = do
    settings ← get_settings
    loop ← call (outside host.new_event_loop)
    setting_loop loop
    engine ← call (outside (host.build_engine settings.database_url))
    registry ← lift (build_default_registry host.python host.now_input host.now)
    pure (record {
      loop = loop;
      engine = engine;
      ledger = host.ledger engine;
      registry = registry;
      settings = settings;
    })

  abbrev pub store_resources : WorkerResources W L E → Prog (Process W L E) (WorkerResources W L E)
  store_resources r p = pure r (record p { resources = some r })

  unfoldable pub resources : Prog (Process W L E) (WorkerResources W L E)
  unfolding build
  resources p = elim p.resources [ none ↦ (build >>= store_resources) p | some r ↦ pure r p ]

  unfoldable pub run_async : {A : Type 0} → Call W A → Prog (Process W L E) A
  unfolding resources
  run_async coro = resources >>= λ r. call (outside (host.run_until_complete r.loop coro))

  unfoldable pub open_resources : Prog (Process W L E) (Unit {0})
  unfolding resources
  open_resources = resources >>= λ _. pure tt

  -- `try: m finally: f`
  abbrev pub finally_do : {A : Type 0} → Prog (Process W L E) A → (W → W) → Prog (Process W L E) A
  finally_do m f p = let (r, p') = m p in (r, touch f p')

  unfoldable pub close_resources : Prog (Process W L E) (Unit {0})
  close_resources p = elim p.resources [
    | none ↦ pure tt p
    | some current ↦
        finally_do
          (call (outside (host.run_until_complete current.loop (host.dispose current.engine))))
          (host.close current.loop) (record p { resources = none })
  ]
