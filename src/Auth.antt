-- ===== src/Auth.antt =====
-- Who a request comes from: pkg/jwtutil and the middleware of internal/delivery/http/middleware.
pub mod Jwt
pub mod Guards
