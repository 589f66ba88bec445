-- ===== src/Payment/Cancel.antt =====
-- CancelPayment of payment.go.
mod Defs
mod Laws
mod Whole
unfoldable pub use Defs.*
pub use Laws.*
pub use Whole.*
