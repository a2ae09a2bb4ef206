-- ===== src/Availability.antt =====
-- services/availability: the anti-double-booking engine.
pub mod Reservation
pub mod Table
pub mod Store
pub mod Service
pub mod Api
pub mod Consumer
pub mod Rows
pub mod Effects
pub mod Applied
pub mod Invariant
pub mod Requests
pub mod Safety
pub mod Runs
pub mod Lifetime
pub mod Answers
pub mod Compensation
