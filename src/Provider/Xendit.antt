-- ===== src/Provider/Xendit.antt =====
-- xendit/xendit.go.
mod Types
mod Client
mod Defs
mod Laws
unfoldable pub use Types.*
unfoldable pub use Client.*
unfoldable pub use Defs.*
pub use Laws.*
