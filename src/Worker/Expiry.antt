-- ===== src/Worker/Expiry.antt =====
-- expiry_worker.go: payments past their time.
mod Defs
mod Laws
unfoldable pub use Defs.*
pub use Laws.*
