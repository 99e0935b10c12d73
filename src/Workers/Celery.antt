-- ===== src/Workers/Celery.antt =====
-- app/workers/celery_app.py: the configuration that `build_celery_app` gives Celery. Celery itself is not
-- modelled. A time is in whole seconds, as the code rounds it down.
use agent_force.Prelude.{ℕ, ◌+◌, ◌*◌, ◌/◌, Bool, true, String, Option, none, List, [], ◌∷◌}
use agent_force.Settings.{Settings}

abbrev pub visibility_multiplier : ℕ
visibility_multiplier = 2

pub record CeleryConf : Type 0 where
  pub main : String
  pub broker : String
  pub task_acks_late : Bool
  pub task_reject_on_worker_lost : Bool
  pub worker_prefetch_multiplier : ℕ
  pub visibility_timeout : ℕ
  pub broker_connection_retry_on_startup : Bool
  pub result_backend : Option String
  pub task_ignore_result : Bool
  pub task_serializer : String
  pub accept_content : List String
  pub task_soft_time_limit : ℕ
  pub task_time_limit : ℕ
  pub timezone : String
  pub enable_utc : Bool
  pub include : List String

unfoldable pub build_celery_app : Settings → CeleryConf
build_celery_app settings = record {
  main = "agentforge";
  broker = settings.redis_url;
  task_acks_late = true;
  task_reject_on_worker_lost = true;
  worker_prefetch_multiplier = 1;
  visibility_timeout = settings.durable_tool_timeout * visibility_multiplier / 1000;
  broker_connection_retry_on_startup = true;
  result_backend = none;
  task_ignore_result = true;
  task_serializer = "json";
  accept_content = "json" ∷ [];
  task_soft_time_limit = settings.durable_tool_timeout / 1000;
  task_time_limit = settings.durable_tool_timeout / 1000 + 30;
  timezone = "UTC";
  enable_utc = true;
  include = "app.workers.tasks" ∷ [];
}
