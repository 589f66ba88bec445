-- ===== src/Worker/Outbox.antt =====
-- outbox_worker.go: the delivery of the events in the outbox.
mod Target
mod Defs
mod Claims
mod Progress
mod Polls
unfoldable pub use Target.*
unfoldable pub use Defs.*
pub use Claims.*
pub use Progress.*
unfoldable pub use Polls.*
