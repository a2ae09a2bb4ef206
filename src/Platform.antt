-- ===== src/Platform.antt =====
-- shared/platform: what every service does with its database and its broker.
pub mod Session
pub mod Tx
pub mod Rules
pub mod Staging
pub mod Atomicity
pub mod Idempotency
pub mod Outbox
pub mod Inbox
pub mod Delivery
pub mod Failures
pub mod Keyed
pub mod Relay
pub mod Drain
pub mod Pruned
pub mod Spared
pub mod Relayed
pub mod Passes
pub mod Batches
pub mod Weights
pub mod Passing
pub mod Healthy
pub mod Draining
pub mod Consumer
pub mod Http
pub mod RetryTransport
pub mod Resending
pub mod Retries
pub mod Deliveries
