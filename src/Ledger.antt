-- ===== src/Ledger.antt =====
-- The ledger through whole requests, alone and in sequences.
mod Keeps
mod Requests
mod Deliveries
mod Runs
pub use Keeps.*
pub use Requests.*
unfoldable pub use Deliveries.*
unfoldable pub use Runs.*
