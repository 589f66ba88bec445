-- ===== src/Db.antt =====
-- The database: its tables, statements and transactions, and the repositories over them.
pub mod Error
pub mod Payload
pub mod Tables
pub mod Monad
pub mod Pages
pub mod Payments
pub mod Audits
pub mod Mutations
pub mod Disbursements
pub mod Merchants
pub mod Accounts
pub mod Fees
pub mod Outbox
pub mod Admins
pub mod FeeWrites
