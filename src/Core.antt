-- ===== src/Core.antt =====
-- core: the identity rules and the resilience primitives that the routes share.
pub mod CircuitBreaker
pub mod RateLimiter
pub mod Json
pub mod Identity
pub mod Authority
pub mod Security
pub mod RoutePolicy
