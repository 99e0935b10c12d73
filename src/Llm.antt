-- ===== src/Llm.antt =====
-- The clients of the model: app/adapters/llm.
pub mod Anthropic
pub mod Fake
pub mod Script
pub mod Translation
