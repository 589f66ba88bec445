-- ===== src/Cache/Memory.antt =====
-- memory.go: a map with expiry and a bound on its size.
mod Defs
mod Laws
mod Refines
unfoldable pub use Defs.*
pub use Laws.*
pub use Refines.*
