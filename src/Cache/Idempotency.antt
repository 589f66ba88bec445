-- ===== src/Cache/Idempotency.antt =====
-- idempotency.go: requests with a key.
mod Defs
mod Laws
unfoldable pub use Defs.*
pub use Laws.*
