-- ===== src/Mutation.antt =====
-- internal/usecase/impl/mutation.go: what a merchant reads of its ledger.
mod Defs
mod Laws
unfoldable pub use Defs.*
pub use Laws.*
