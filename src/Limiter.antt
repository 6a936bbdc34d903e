-- ===== src/Limiter.antt =====
-- The limiters of concurrent work on one source, apps/worker/src/concurrency.ts.
pub mod Caps
pub mod Lanes
pub mod Fairness
pub mod Leases
pub mod Within
pub mod Kept
mod Tests
