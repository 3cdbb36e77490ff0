-- ===== src/Middleware.antt =====
-- The middleware of internal/middleware that decides about requests: rate limits, cross-origin rules,
-- virtual hosts and authentication.
pub mod RateLimit
pub mod Cors
pub mod Hosts
pub mod Identity
