-- ===== src/Server.antt =====
-- internal/server: the parts of the HTTP server, a child module for each.
pub mod Limiter
pub mod Access
pub mod Search
pub mod Settings
pub mod Semantic
pub mod Status
