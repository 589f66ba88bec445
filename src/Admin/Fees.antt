-- ===== src/Admin/Fees.antt =====
-- What administrators change of the fees, and the record that is kept of it.
mod Defs
mod Laws
unfoldable pub use Defs.*
pub use Laws.*
