-- ===== src/Admin.antt =====
-- The use cases of administrators, internal/usecase/impl/admin.go.
pub mod Types
pub mod Sessions
pub mod Fees
pub mod Shops
pub mod Visibility
pub mod Access
