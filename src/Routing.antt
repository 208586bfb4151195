-- ===== src/Routing.antt =====
-- routing: how a request reaches a provider.
pub mod Failover
pub mod Router
