-- ===== src/Cache.antt =====
-- internal/infrastructure/cache/memory.go, and internal/delivery/http/middleware/idempotency.go over
-- it.
pub mod Memory
pub mod Idempotency
