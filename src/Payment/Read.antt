-- ===== src/Payment/Read.antt =====
-- GetPayment and ListPayments of payment.go.
mod Defs
mod Laws
unfoldable pub use Defs.*
pub use Laws.*
