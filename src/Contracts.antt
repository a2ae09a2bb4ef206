-- ===== src/Contracts.antt =====
-- shared/contracts: the wire form of the events.
pub mod Events
pub mod Validity
