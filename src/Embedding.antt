-- ===== src/Embedding.antt =====
-- The embedding of chunks: packages/database/src/embedding-work.ts and its work items.
pub mod Items
pub mod Work
pub mod Rows
pub mod Once
pub mod Inverting
pub mod Marks
pub mod Advancing
pub mod Runs
mod Tests
