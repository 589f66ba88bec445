-- ===== src/Admin/Sessions.antt =====
-- Login, tokens and the accounts of administrators.
mod Defs
mod Laws
unfoldable pub use Defs.*
unfoldable pub use Laws.*
