-- ===== src/Merchant.antt =====
-- internal/usecase/impl/merchant.go: merchants and their bank accounts.
mod Types
mod Defs
mod Laws
mod Limits
mod Events
unfoldable pub use Types.*
unfoldable pub use Defs.*
pub use Laws.*
pub use Limits.*
unfoldable pub use Events.*
