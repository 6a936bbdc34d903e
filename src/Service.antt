-- ===== src/Service.antt =====
-- The embedding service, packages/domain/src/embedding-service.ts: a chunk is claimed as a work item,
-- paid for from the ledger and embedded.
pub mod Preflight
pub mod Chunk
pub mod Opened
pub mod Unsent
pub mod Settling
pub mod Closed
pub mod Holding
pub mod Recorded
pub mod Named
pub mod Batches
mod Tests
