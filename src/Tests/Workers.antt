-- ===== src/Tests/Workers.antt =====
-- A worker process whose engine raises while it is disposed of, and the limits of the default settings.
use agent_force.Prelude.{
  ℕ, ◌+◌, ◌≡◌, refl, ap, ap₂, arith, ◌<◌, ◌≤◌, ◌↔◌, none, some, Option, List, [], ◌∷◌,
}
use agent_force.Errors.{other}
use agent_force.Effects.{ok, err, ok-injective}
use agent_force.Effects.Prog.{Call, returns, as_run}
use agent_force.Ports.{ToolLedger}
use agent_force.Settings.{default_settings, is_valid}
use agent_force.Tests.Calculator.{python, no_input}
use agent_force.Workers.Celery.{build_celery_app}
use agent_force.Workers.Timing.{visibility_timeout-exceeds_iff}
use agent_force.Workers.Resources.{Host, WorkerResources, Process, resources, run_async}
use agent_force.Workers.Lifetime.{Event, process_init, process_shutdown, task, HostLaws, serve}
use agent_force.Workers.Sharing.{run_async-after}

visibility_timeout-exceeds_iff_example :
    let conf = build_celery_app default_settings in
    (conf.task_soft_time_limit < conf.task_time_limit)
    × ((conf.task_time_limit < conf.visibility_timeout)
        ↔ (30500 ≤ default_settings.durable_tool_timeout))
    × (conf.task_soft_time_limit ≤ 3600)
unfolding is_valid
visibility_timeout-exceeds_iff_example = visibility_timeout-exceeds_iff default_settings refl

record Slots : Type 0 where
  loops : List ℕ
  engines : List ℕ
  tasks : ℕ

abbrev tail : List ℕ → List ℕ
tail [] = []
tail (x ∷ xs) = xs

abbrev on_loop : {A : Type 0} → List ℕ → Call Slots A → Call Slots A
on_loop [] coro w = (err (other "RuntimeError" "Event loop is closed"), w)
on_loop (l ∷ ls) coro w = coro w

abbrev no_ledger : ToolLedger Slots
no_ledger = record {
  begin = λ run_id step_idx tool effect key w. (err (other "OSError" "no database"), w);
  lookup = λ key w. (err (other "OSError" "no database"), w);
  needs_review = λ key reason w. (err (other "OSError" "no database"), w);
  complete = λ key result failed w. (err (other "OSError" "no database"), w);
}

abbrev host : Host Slots ℕ ℕ
host = record {
  read_settings = λ w. (ok default_settings, w);
  new_event_loop = λ w. (ok 7, record w { loops = 7 ∷ w.loops });
  set_event_loop = λ l w. w;
  run_until_complete = λ l coro w. on_loop w.loops coro w;
  close = λ l w. record w { loops = tail w.loops };
  build_engine = λ url w. (ok 9, record w { engines = 9 ∷ w.engines });
  dispose = λ e w. (err (other "OSError" "connection lost"), record w { engines = tail w.engines });
  ledger = λ e. no_ledger;
  python = python;
  now_input = no_input;
  now = λ w. (ok "2025-01-01T12:00:00+00:00", w);
}

abbrev Open : List ℕ → List ℕ → Slots → Type 0
Open ls es w = (w.loops ≡ ls) × (w.engines ≡ es)

host-HostLaws : HostLaws host Open (λ url. Unit)
host-HostLaws = record {
  reads = λ ls es w h. h;
  reads_url = λ s w h. tt;
  refuses = λ ls es w x h e. absurd (ground arith);
  creates = λ ls es w l h e. (ap₂ (λ a b. a ∷ b) (ok-injective e) h.0, h.1);
  sets = λ ls es l w h. h;
  builds = λ ls es url w parses h. (9, refl, (h.0, ap (λ x. 9 ∷ x) h.1));
  runs = λ ls es l coro w h. rw h.0 refl;
  disposes = λ ls es e w h. (h.0, ap tail h.1);
  closes = λ ls es l w h. (ap tail h.0, h.1);
}

-- A task of the test counts itself, and raises.
abbrev counts : Call Slots (Unit {0})
counts w = (err (other "ToolCrashed" "no"), record w { tasks = w.tasks + 1 })

abbrev asleep : Process Slots ℕ ℕ
asleep = record {
  resources = none;
  cached_settings = none;
  world = record { loops = []; engines = []; tasks = 0 };
}

abbrev day : List (Event Slots)
day = process_init ∷ task counts ∷ process_shutdown ∷ task counts ∷ process_shutdown ∷ []

abbrev held : WorkerResources Slots ℕ ℕ
held = record {
  loop = 7;
  engine = 9;
  ledger = no_ledger;
  registry = record { tools = [] };
  settings = default_settings;
}

awake : Process Slots ℕ ℕ
unfolding resources
awake = (resources host asleep).1

-- The resources of a process that has some.
built : Option (WorkerResources Slots ℕ ℕ) → WorkerResources Slots ℕ ℕ
built none = held
built (some r) = r

wakes : resources host asleep ≡ (returns (built awake.resources), awake)
unfolding resources built awake
wakes = refl

run_async-after_example :
    let u = serve host (process_init ∷ task counts ∷ []) awake in
    (resources host u ≡ (returns (built awake.resources), u))
    × Open ((built awake.resources).loop ∷ []) ((built awake.resources).engine ∷ []) u.world
    × (run_async host counts u
        ≡ (as_run (counts u.world).0, record u { world = (counts u.world).1 }))
run_async-after_example =
    run_async-after host Open (λ url. Unit) host-HostLaws (built awake.resources)
      (process_init ∷ task counts ∷ []) counts asleep awake (tt, (λ ls es w h. h, tt))
      ((refl, refl), tt) wakes
