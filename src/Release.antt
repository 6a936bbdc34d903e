-- ===== src/Release.antt =====
-- The journalled budget of a release evaluation: apps/api/src/release-budget.ts.
pub mod Journal
pub mod Execute
pub mod Caps
pub mod Replay
mod Tests
