-- ===== src/Db/Disbursements.antt =====
-- internal/infrastructure/database/postgres/disbursement_repo.go: the disbursements.
mod Defs
mod Laws
mod Listing
unfoldable pub use Defs.*
pub use Laws.*
unfoldable pub use Listing.*
