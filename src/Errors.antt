-- ===== src/Errors.antt =====
-- app/core/runtime/errors.py, the exceptions that app/core/runtime/policy.py and loop.py add, and
-- the built-in ones that the code meets; each with the arguments that its constructor is given.
mod Render
unfoldable pub use Render.*
