-- ===== src/Abuse.antt =====
-- The limits on the HTTP interface: apps/api/src/abuse-controls.ts.
pub mod Limits
pub mod Bounds
mod Tests
