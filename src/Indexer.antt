-- ===== src/Indexer.antt =====
-- internal/indexer: the walk over a directory tree, and the text of a file.
pub mod Policy
pub mod Walk
pub mod Extract
pub mod File
mod Tests
