-- ===== src/Middleware.antt =====
-- What stands in front of the handlers: api/middleware.
pub mod CircuitBreaker
pub mod RateLimit
pub mod RequestContext
pub mod Logger
pub mod Timeout
