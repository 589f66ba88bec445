-- ===== src/Admin/Shops.antt =====
-- What administrators do to merchants and their bank accounts, and to the balances held at providers.
mod Defs
mod Laws
unfoldable pub use Defs.*
pub use Laws.*
