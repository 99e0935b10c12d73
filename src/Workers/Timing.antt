-- ===== src/Workers/Timing.antt =====
-- When a durable tool that is still running is given to a second worker.
use agent_force.Prelude.{◌<◌, ◌≤◌, ◌≡◌, ◌↔◌, true, arith}
use agent_force.Settings.{Settings, is_valid}
use agent_force.Workers.Celery.{build_celery_app}

-- A tool is asked to stop, by an exception, before it is killed; and a tool is killed before its task is
-- handed to another worker exactly if its timeout is at least 30.5 seconds. Below that, which the bounds of
-- the settings allow, the task of a tool that is still running is delivered again.
pub visibility_timeout-exceeds_iff :
    (s : Settings)
    → is_valid s ≡ true
    → let conf = build_celery_app s in
      (conf.task_soft_time_limit < conf.task_time_limit)
      × ((conf.task_time_limit < conf.visibility_timeout) ↔ (30500 ≤ s.durable_tool_timeout))
      × (conf.task_soft_time_limit ≤ 3600)
unfolding build_celery_app is_valid
visibility_timeout-exceeds_iff s v =
    (omega arith, (λ h. omega arith, λ h. omega arith), ground arith)
