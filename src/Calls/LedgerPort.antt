-- ===== src/Calls/LedgerPort.antt =====
-- The ledger of packages/database/src/provider-budget.ts as the budget port of a provider call.
use tech_p.Budget.Ledger.{Ledger, reserve, settle, hold_unknown}
use tech_p.Budget.Ledger.Reserving.{reserve-safe}
use tech_p.Budget.Ledger.Closing
use tech_p.Budget.Ledger.Closing.{reserve-opens, settle-closes, settle-refuses, hold_unknown-closes}
use tech_p.Calls.Port.{BudgetPort}

abbrev pub ledger_port : BudgetPort
ledger_port = record {
  State = Ledger;
  is_open = Closing.is_open;
  reserve = reserve;
  settle = settle;
  hold_unknown = hold_unknown;
  reserve_opens = reserve-opens;
  reserve_safe = reserve-safe;
  settle_closes = settle-closes;
  settle_refuses = settle-refuses;
  hold_closes = hold_unknown-closes;
}
