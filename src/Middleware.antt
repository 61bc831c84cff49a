-- ===== src/Middleware.antt =====
-- internal/middleware, and the routes of internal/router that it guards.
pub mod RateLimiter
pub mod Access
pub mod Routes
pub mod Bearer
pub mod Origins
pub mod Configured
