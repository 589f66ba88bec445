-- ===== src/Auth/Guards.antt =====
-- The middleware of internal/delivery/http/middleware that lets a request in or turns it away.
mod Defs
mod Laws
unfoldable pub use Defs.*
pub use Laws.*
