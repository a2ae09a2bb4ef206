-- ===== src/Booking.antt =====
-- services/booking: the bookings of customers, and the saga that moves them.
pub mod Lifecycle
pub mod Table
pub mod Store
pub mod Service
pub mod Clients
pub mod Remote
pub mod Api
pub mod Consumers
pub mod Effects
pub mod Applied
pub mod Invariant
pub mod Requests
pub mod Safety
pub mod Runs
pub mod Paid
pub mod Privacy
