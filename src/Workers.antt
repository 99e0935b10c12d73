-- ===== src/Workers.antt =====
-- app/workers: what configures Celery, and the resources of a worker process.
pub mod Celery
pub mod Timing
pub mod Resources
pub mod Lifetime
pub mod Sharing
