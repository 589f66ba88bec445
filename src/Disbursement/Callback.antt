-- ===== src/Disbursement/Callback.antt =====
-- HandleDisbursementCallback and GetDisbursement of disbursement.go.
mod Defs
mod Laws
mod Balance
unfoldable pub use Defs.*
pub use Laws.*
pub use Balance.*
