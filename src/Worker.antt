-- ===== src/Worker.antt =====
-- The worker: apps/worker/src/ingestion.ts and the dispatcher of apps/worker/src/partition-runtime.ts.
pub mod Outcomes
pub mod Page
pub mod Refining
pub mod Reports
pub mod Failures
pub mod Dispatch
pub mod Accounting
pub mod Ticking
pub mod Tests
