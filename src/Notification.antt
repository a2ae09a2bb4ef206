-- ===== src/Notification.antt =====
-- services/notification: the mail that confirms a booking.
pub mod Message
pub mod Confirmation
pub mod Amounts
pub mod Mailed
pub mod Sending
