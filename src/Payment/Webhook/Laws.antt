-- ===== src/Payment/Webhook/Laws.antt =====
-- What a webhook does to the tables.
mod Stages
mod Once
mod Replay
mod Fees
pub use Once.*
pub use Replay.*
pub use Fees.*
