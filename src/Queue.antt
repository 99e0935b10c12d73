-- ===== src/Queue.antt =====
-- The queues of durable tool calls: app/adapters/queue, and the worker of app/workers/tasks.py.
pub mod Celery
pub mod Deferral
pub mod Fake
pub mod Redelivery
pub mod Twice
pub mod Worker
