-- ===== src/Provider/Midtrans.antt =====
-- midtrans/midtrans.go.
mod Types
mod Defs
mod Laws
unfoldable pub use Types.*
unfoldable pub use Defs.*
pub use Laws.*
