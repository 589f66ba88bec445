-- ===== src/Payment.antt =====
-- internal/usecase/impl/payment.go: the operations on payments.
pub mod Types
pub mod Create
pub mod Cancel
pub mod Webhook
pub mod Read
