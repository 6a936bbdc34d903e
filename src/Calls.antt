-- ===== src/Calls.antt =====
-- Provider calls under a budget: packages/domain/src/provider-budget.ts.
pub mod Port
pub mod Checks
pub mod Guarded
pub mod Prices
pub mod Closed
pub mod LedgerPort
pub mod Amounts
mod Tests
