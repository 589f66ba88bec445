-- ===== src/Db/Mutations.antt =====
-- internal/infrastructure/database/postgres/mutation_repo.go: the ledger.
mod Defs
mod Laws
mod Listing
unfoldable pub use Defs.*
pub use Laws.*
unfoldable pub use Listing.*
