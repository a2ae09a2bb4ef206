-- ===== src/Gateway.antt =====
-- services/gateway: the edge.
pub mod RateLimit
pub mod Limiting
