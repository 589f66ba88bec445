-- ===== src/Fee.antt =====
-- internal/usecase/impl/fee_resolver.go, and `computeMethodFee` of helpers.go.
mod Resolver
mod Laws
unfoldable pub use Resolver.*
pub use Laws.*
