-- ===== src/Gateway.antt =====
-- backend/gateway_health: the health of each bank and payment rail.
pub mod Stats
pub mod Breaker
pub mod Window
pub mod Downtime
