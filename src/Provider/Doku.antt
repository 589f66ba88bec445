-- ===== src/Provider/Doku.antt =====
-- doku/doku.go.
mod Types
mod Token
mod Calls
mod Webhooks
mod Laws
unfoldable pub use Types.*
unfoldable pub use Token.*
unfoldable pub use Calls.*
unfoldable pub use Webhooks.*
pub use Laws.*
