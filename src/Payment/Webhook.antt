-- ===== src/Payment/Webhook.antt =====
-- HandleWebhook of payment.go.
mod Defs
mod Laws
unfoldable pub use Defs.*
pub use Laws.*
