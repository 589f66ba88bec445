-- ===== src/Lib.antt =====
-- The core of the wanpey payment service: payments by virtual account and QRIS, disbursements, the
-- ledger of merchants' balances, fees, the administration, the adapters of the payment providers,
-- and the two background workers.
--
-- A merchant creates a payment with a provider (CreateVA, CreateQRIS), the provider's webhook marks
-- it as paid and credits the merchant in the ledger (HandleWebhook), and a disbursement pays the
-- balance out (Disburse, HandleDisbursementCallback). Every change of status also writes an audit
-- record or an event in the outbox, in the same transaction; the outbox worker delivers the events
-- to merchants, and the expiry worker closes the payments that nobody paid.
--
-- Base: comparisons, lists, and int64 as integers with two's complement wrap-around.
-- Entity: internal/domain/entity, one file per entity, with the methods IsFinal, CanCancel,
--   CanTransact and NetAmount.
-- Db: the database. Db.Monad is a state with a clock: the tables and the number of statements so
--   far. `statement` is one SQL statement, `run_in_tx` is RunInTx of
--   internal/infrastructure/database/db.go. Db.Payments, Audits, Mutations, Disbursements,
--   Merchants, Accounts, Fees, FeeWrites, Admins and Outbox are the repositories of
--   internal/infrastructure/database/postgres, a function per method, with the constraints of
--   migrations/ as Boolean checks. Db.Pages has what the lists share: the filters, the order and
--   the page with its 32-bit offset. Db.Error is pkg/apperror, Db.Payload pkg/webhook.
-- Fee: internal/usecase/impl/fee_resolver.go, with computeMethodFee of helpers.go.
-- Auth: pkg/jwtutil (Jwt), and of internal/delivery/http/middleware auth.go, admin_auth.go and
--   webhook_allowlist.go (Guards).
-- Payment: internal/usecase/impl/payment.go. Types has the inputs, the outputs and the gateway port
--   of internal/domain/gateway; Create, Cancel, Webhook and Read have the methods. A method is a
--   chain of the steps of its body, and each transaction's body is a definition of its own.
-- Disbursement: internal/usecase/impl/disbursement.go, in the same way.
-- Merchant: internal/usecase/impl/merchant.go: registration, keys, and bank accounts.
-- Admin: internal/usecase/impl/admin.go: sessions, fees, the merchants' administration, and the
--   views of the tables; Access joins it with the guard of its routes.
-- Mutation: internal/usecase/impl/mutation.go.
-- Cache: internal/infrastructure/cache/memory.go, and the middleware for requests with a key,
--   internal/delivery/http/middleware/idempotency.go.
-- Ledger: sequences of webhooks and callbacks over the methods above, and the deliveries of one
--   payment's webhooks.
-- Provider: internal/infrastructure/provider: the adapters of Xendit, Midtrans, iPaymu and DOKU,
--   and the gateways behind the circuit breaker. An operation builds its request, sends it, and
--   reads the answer. DOKU's adapter keeps an access token, which it may ask for to verify a
--   notification: its operations get the token and give it back, and they are not behind the port
--   of the use cases.
-- Worker: internal/infrastructure/worker, with the claim of events, one delivery, and one round of
--   the expiry.
-- Examples: sample tables on which the theorems are applied.
--
-- The environment `Env` holds what a request cannot choose: the time of the request, which
-- statements fail, generated identifiers and random bytes, and what other requests commit before a
-- transaction of this one begins. A transaction runs alone from its beginning to its end: the rows
-- that it writes are locked, and reads within it see what was committed when it began. A commit
-- that fails has changed nothing. One request has one time. What depends on the server is the
-- environment's too: the midnight at which the day of the daily limit starts, which is that of the
-- session's time zone, and whether a count can be locked (FOR UPDATE), which the documentation of
-- Postgres excludes. Identifiers are strings, a message of an error is its format string, and
-- payloads are kept as values, not as JSON.
--
-- Parameters stand for what is not in the repository: the providers' servers, the parsing of URLs,
-- addresses and times, HTTP, JSON, base64, bcrypt, the hash and HMAC functions, the matching of
-- ILIKE, and float64 arithmetic.
--
-- There is no fuel: every loop of the modelled code runs over a list. The polls of the outbox worker
-- are a list of environments, and as many as an event has attempts left are enough, where each
-- attempt ends before the deadline of its update.
--
-- Not modelled: the HTTP handlers with validation and responses, the packages mask and signature,
-- the Redis cache, the task queue with the treasury's tasks, the Lease and MarkFailed of the
-- outbox, which nothing calls, configuration, logging and telemetry, and the generated API
-- documentation.
pub mod Base
pub mod Entity
pub mod Db
pub mod Fee
pub mod Auth
pub mod Payment
pub mod Disbursement
pub mod Merchant
pub mod Admin
pub mod Mutation
pub mod Cache
pub mod Ledger
pub mod Provider
pub mod Worker
pub mod Examples
