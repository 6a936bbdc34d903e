-- ===== src/Runtime.antt =====
-- The worker's planning of partitions: apps/worker/src/partition-runtime.ts.
pub mod Planning
pub mod Tiling
pub mod StatePort
mod Tests
