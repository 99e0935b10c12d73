-- ===== src/Loop.antt =====
-- app/core/runtime/loop.py, class AgentLoop.
pub mod Deps
pub mod Blocks
pub mod Dispatch
pub mod Attempts
pub mod Tries
pub mod Untouched
pub mod History
pub mod Replies
pub mod Tracking
pub mod Durable
pub mod Resumption
pub mod Durability
pub mod Resumed
pub mod Routing
pub mod Turns
pub mod Drive
pub mod Termination
pub mod Total
pub mod Rounds
pub mod Sound
pub mod Outcomes
pub mod Answers
