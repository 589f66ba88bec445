-- ===== src/Provider.antt =====
-- internal/infrastructure/provider: the payment providers behind the gateway port.
pub mod Http
pub mod Xendit
pub mod Midtrans
pub mod Ipaymu
pub mod Doku
pub mod Breaker
