-- ===== src/Auth/Jwt.antt =====
-- pkg/jwtutil/jwt.go: signed tokens of administrators.
mod Defs
mod Laws
unfoldable pub use Defs.*
unfoldable pub use Laws.*
