-- ===== src/Admin.antt =====
-- The admin interface (internal/admin): its rate limiter, its janitor and its
-- sessions. How it exports and imports
-- the configuration stands with the overlay, in Overlay/Snapshots.antt.
pub mod RateLimiter
pub mod Janitor
pub mod Sessions
