-- ===== src/Entity.antt =====
-- internal/domain/entity: the records that every part of the program shares.
pub mod Fee
pub mod Merchant
pub mod Payment
pub mod Disbursement
pub mod Mutation
pub mod Audit
pub mod Admin
