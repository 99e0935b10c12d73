-- ===== src/Json.antt =====
-- Parsed JSON, and Python's dictionaries of it.
mod Values
mod Dumps
pub mod Order
pub mod Reordered
unfoldable pub use Values.*
unfoldable pub use Dumps.*
