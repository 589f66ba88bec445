-- ===== src/Payment/Create.antt =====
-- CreateVA, CreateQRIS and savePaymentWithAudit of payment.go.
mod Defs
mod Laws
unfoldable pub use Defs.*
pub use Laws.*
