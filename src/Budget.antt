-- ===== src/Budget.antt =====
-- Money and tokens: the durable ledger of packages/database/src/provider-budget.ts.
pub mod Ledger
