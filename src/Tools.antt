-- ===== src/Tools.antt =====
-- app/core/tools: what a tool is, and the registry.
pub mod Spec
pub mod Calculator
pub mod Answers
pub mod Builtin
pub mod Default
pub mod Registry
pub mod Lookup
pub mod Names
