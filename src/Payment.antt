-- ===== src/Payment.antt =====
-- services/payment: a payment for a held booking, and Stripe's word on it.
pub mod Lifecycle
pub mod Table
pub mod Store
pub mod Service
pub mod Api
pub mod Signature
pub mod Signed
pub mod Webhook
pub mod Consumer
pub mod Effects
pub mod Recorded
pub mod Invariant
pub mod Requests
pub mod Safety
pub mod Runs
pub mod Charging
