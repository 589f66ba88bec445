-- ===== src/Examples.antt =====
-- Sample tables and requests, and the theorems applied to them.
mod Data
mod Tokens
mod Ports
mod Payments
mod Disbursements
mod Database
mod Workers
mod Caches
mod Merchants
mod Admins
mod Providers
mod Doku
