-- ===== src/Disbursement.antt =====
-- internal/usecase/impl/disbursement.go: money sent to a merchant's bank account.
pub mod Types
pub mod Disburse
pub mod Callback
pub mod Listing
pub mod Overdraw
