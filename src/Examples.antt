-- ===== src/Examples.antt =====
-- Concrete inputs at which the theorems are applied: a driver that never fails, and small runs.
pub mod Worlds
pub mod Transactions
pub mod Slots
pub mod Saga
pub mod Charges
pub mod Answers
pub mod Tokens
mod Edge
mod Relaying
mod Listings
mod Consumers
mod Remotes
mod Mails
