-- ===== src/Db.antt =====
-- internal/db: the index database, a child module for each part.
pub mod Vectors
pub mod Engine
pub mod Memory
pub mod Index
pub mod Rows
pub mod Query
pub mod Audit
pub mod Schema
mod Tests
