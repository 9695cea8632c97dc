-- ===== src/Middleware.antt =====
-- src/middleware: what happens to a request before and around its handler.
pub mod Capacity
pub mod InFlight
pub mod Paths
pub mod Blocked
mod Left
pub mod Normalized
mod Tests
