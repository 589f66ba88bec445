-- ===== src/Disbursement/Disburse.antt =====
-- Disburse of disbursement.go.
mod Defs
mod Laws
unfoldable pub use Defs.*
pub use Laws.*
