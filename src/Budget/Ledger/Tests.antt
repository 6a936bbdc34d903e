-- ===== src/Budget/Ledger/Tests.antt =====
-- Runs of the ledger of packages/database/src/provider-budget.ts on concrete inputs, and each property
-- at an input that it covers.
use tech_p.Base.{
  ◌≡◌, ◌≢◌, refl, true, false, some, none, List, [], ◌∷◌, ok, err, inl, codes, nat, at, find, all,
  eq_text, arith, sum_by, update_where,
}
use tech_p.Budget.Ledger.{
  Ledger, Scope, Reservation, reserved, settled, budget_exhausted, find_scope, reserve, settle,
  lane_limit, exceeds,
}
use tech_p.Budget.Ledger.Within.{WithinLimits}
use tech_p.Budget.Ledger.Traces.{
  Call, reserving, settling, configuring, run, opened, never_overspent,
}
use tech_p.Budget.Ledger.Configuring.{ScopeInput, configure_scope, is_currency, check_lanes}
use tech_p.Budget.Ledger.Reserving.{find_attempt}
use tech_p.Budget.Ledger.Retries.{reserve_retry, overrun_blocks}

abbrev scope : Scope
scope = record {
  id = codes "s";
  approved = true;
  currency = codes "USD";
  max_daily_units = 100;
  max_outstanding_units = 60;
  max_daily_tokens = 1000;
  lane_limits = (codes "chat", record { max_daily_units = 80; max_daily_tokens = 900 }) ∷ [];
  approved_model_profiles = [];
  blocked = false;
}

abbrev base : Ledger
base = opened (scope ∷ [])

abbrev row : Reservation
row = record {
  id = 0;
  scope_id = codes "s";
  attempt_id = codes "a";
  lane = codes "chat";
  utc_day = 0;
  units = 40;
  tokens = 300;
  state = reserved;
  actual_units = none;
  actual_tokens = none;
  created_at = 5;
  updated_at = 5;
}

abbrev holding_one : Ledger
holding_one = record { scopes = scope ∷ []; reservations = row ∷ []; next_id = 1 }

reserve_first :
    reserve (codes "s") (codes "a") (codes "chat") (nat 40) (nat 300) (at 5) base
    ≡ ok (row, holding_one)
unfolding reserve find eq_text lane_limit exceeds sum_by
reserve_first = refl

-- A second reservation of 40 units would leave 80 outstanding.
reserve_second :
    reserve (codes "s") (codes "b") (codes "chat") (nat 40) (nat 300) (at 5) holding_one
    ≡ err budget_exhausted
unfolding reserve find eq_text lane_limit exceeds sum_by
reserve_second = refl

-- The reservation is settled before the attempt is repeated.
abbrev settled_row : Reservation
settled_row = record row {
  state = settled;
  actual_units = some 30;
  actual_tokens = some 200;
  updated_at = 7;
}

reserve_retry_example :
    (r' : Reservation) × (reserve
        (codes "s")
        (codes "a")
        (codes "chat")
        (nat 40)
        (nat 300)
        (at 900)
        (run (settling 0 (nat 30) (nat 200) 7 ∷ []) holding_one)
      ≡ ok (r', run (settling 0 (nat 30) (nat 200) 7 ∷ []) holding_one))
    × (r'.id ≡ 0)
    × (r'.attempt_id ≡ codes "a")
    × (r'.scope_id ≡ codes "s")
    × (r'.lane ≡ codes "chat")
    × (r'.units ≡ 40)
    × (r'.tokens ≡ 300)
unfolding all
reserve_retry_example =
    reserve_retry (codes "s") (codes "a") (codes "chat") (nat 40) (nat 300) (at 5) (at 900) 900 base
      row holding_one (settling 0 (nat 30) (nat 200) 7 ∷ []) reserve_first refl refl

repeats_settled :
    reserve
      (codes "s")
      (codes "a")
      (codes "chat")
      (nat 40)
      (nat 300)
      (at 900)
      (run (settling 0 (nat 30) (nat 200) 7 ∷ []) holding_one)
    ≡ ok (settled_row, run (settling 0 (nat 30) (nat 200) 7 ∷ []) holding_one)
unfolding run reserve settle find eq_text lane_limit update_where
repeats_settled = refl

abbrev script : List Call
script =
    reserving (codes "s") (codes "a") (codes "chat") (nat 40) (nat 300) (at 5)
    ∷ reserving (codes "s") (codes "b") (codes "chat") (nat 40) (nat 300) (at 6)
    ∷ settling 0 (nat 30) (nat 200) 7
    ∷ []

script_scope : find_scope (codes "s") (run script base).scopes ≡ some scope
unfolding run reserve settle find eq_text lane_limit exceeds sum_by
script_scope = refl

never_overspent_example : WithinLimits scope (run script base).reservations
unfolding all
never_overspent_example = never_overspent (scope ∷ []) script (codes "s") scope refl script_scope

abbrev overrun : Ledger
overrun = record {
  scopes = record scope { blocked = true } ∷ [];
  reservations =
      record row {
        state = settled;
        actual_units = some 50;
        actual_tokens = some 300;
        updated_at = 9;
      }
      ∷ [];
  next_id = 1;
}

settle_over : settle 0 (nat 50) (nat 300) 9 holding_one ≡ ok overrun
unfolding settle find eq_text update_where
settle_over = refl

-- The limits are raised after the overrun.
abbrev raised : ScopeInput
raised = record {
  id = codes "s";
  approved = true;
  currency = codes "USD";
  max_daily_units = nat 900;
  max_outstanding_units = nat 900;
  max_daily_tokens = nat 9000;
  lane_limits = (codes "chat", nat 900, nat 9000) ∷ [];
  approved_model_profiles = [];
}

abbrev reconfigured : Ledger
reconfigured = run (configuring raised ∷ []) overrun

unseen : find_attempt (codes "b") reconfigured.reservations ≡ none
unfolding run configure_scope find eq_text all update_where is_currency check_lanes
unseen = refl

overrun_blocks_example :
    reserve (codes "s") (codes "b") (codes "chat") (nat 1) (nat 1) (at 10) reconfigured
    ≢ ok (row, reconfigured)
unfolding find eq_text
overrun_blocks_example =
    overrun_blocks 0 50 300 9 holding_one overrun row scope (configuring raised ∷ []) (codes "b")
      (codes "chat") (nat 1) (nat 1) (at 10) row reconfigured refl refl refl (inl (omega arith))
      settle_over unseen
