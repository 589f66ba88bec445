-- ===== src/Worker.antt =====
-- internal/infrastructure/worker: the two loops that run beside the server.
pub mod Outbox
pub mod Expiry
