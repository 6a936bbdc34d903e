-- ===== src/Budget/Ledger/Within.antt =====
-- The limits of a scope as an invariant of the ledger of packages/database/src/provider-budget.ts.
use tech_p.Base.{
  ℕ, ◌≤◌, ◌≡◌, Bool, true, false, some, none, List, ◌==◌, arith, All, update_where, sum_by,
  sum_by-update_where-le, inl, inr, ◌⊎◌, Text, eq_text,
}
use tech_p.Budget.Ledger.{
  Ledger, Scope, LaneLimit, Reservation, find_scope, find_reservation, lane_limit, day_units,
  day_tokens, lane_units, lane_tokens, outstanding, is_outstanding, is_live, charged_units,
  charged_tokens,
}
use tech_p.Budget.Ledger.Rows.{Between, sum_by-update_one}

-- A reservation that is still out has cost nothing yet.
abbrev pub IsHonest : Reservation → Type 0
IsHonest r = is_outstanding r.state ≡ true → (r.actual_units ≡ none) × (r.actual_tokens ≡ none)

-- The daily limits of a scope, and those of its lanes, on one day.
pub record DayWithin (s : Scope) (rows : List Reservation) (day : ℕ) : Type 0 where
  pub units_ok : sum_by (day_units s.id day) rows ≤ s.max_daily_units
  pub tokens_ok : sum_by (day_tokens s.id day) rows ≤ s.max_daily_tokens
  pub lanes_ok :
      (lane : Text) (limit : LaneLimit)
      → lane_limit lane s.lane_limits ≡ some limit
      → (sum_by (lane_units s.id lane day) rows ≤ limit.max_daily_units)
        × (sum_by (lane_tokens s.id lane day) rows ≤ limit.max_daily_tokens)

pub record WithinLimits (s : Scope) (rows : List Reservation) : Type 0 where
  pub outstanding_ok : sum_by (outstanding s.id) rows ≤ s.max_outstanding_units
  pub daily_ok : (s.blocked ≡ true) ⊎ ((day : ℕ) → DayWithin s rows day)

pub record IsSound (db : Ledger) : Type 0 where
  pub unique : Between 0 db.reservations db.next_id
  pub honest : All IsHonest db.reservations
  pub within :
      (id : Text) (s : Scope) → find_scope id db.scopes ≡ some s → WithinLimits s db.reservations

-- Every sum of one table is at most the same sum of another.
pub record NoHeavier (id : Text) (new old : List Reservation) : Type 0 where
  pub out : sum_by (outstanding id) new ≤ sum_by (outstanding id) old
  pub units : (day : ℕ) → sum_by (day_units id day) new ≤ sum_by (day_units id day) old
  pub tokens : (day : ℕ) → sum_by (day_tokens id day) new ≤ sum_by (day_tokens id day) old
  pub l_units :
      (lane : Text) (day : ℕ)
      → sum_by (lane_units id lane day) new ≤ sum_by (lane_units id lane day) old
  pub l_tokens :
      (lane : Text) (day : ℕ)
      → sum_by (lane_tokens id lane day) new ≤ sum_by (lane_tokens id lane day) old

DayWithin-lighter :
    (s : Scope) (new old : List Reservation) (day : ℕ)
    → NoHeavier s.id new old
    → DayWithin s old day
    → DayWithin s new day
DayWithin-lighter s new old day n h = record {
  units_ok = omega (arith, n.units day, h.units_ok);
  tokens_ok = omega (arith, n.tokens day, h.tokens_ok);
  lanes_ok = λ lane limit e.
      let old_ok = h.lanes_ok lane limit e in
      (omega (arith, n.l_units lane day, old_ok.0), omega (arith, n.l_tokens lane day, old_ok.1));
}

pub WithinLimits-lighter :
    (s : Scope) (new old : List Reservation)
    → NoHeavier s.id new old
    → WithinLimits s old
    → WithinLimits s new
WithinLimits-lighter s new old n h = record {
  outstanding_ok = omega (arith, n.out, h.outstanding_ok);
  daily_ok = elim h.daily_ok [
    | inl b ↦ inl b
    | inr d ↦ inr (λ day. DayWithin-lighter s new old day n (d day))
  ];
}

-- An update of rows that raises the weight of none.
abbrev pub Lightens : (Reservation → Reservation) → Reservation → Type 0
Lightens g r =
    ((g r).scope_id ≡ r.scope_id)
    × ((g r).utc_day ≡ r.utc_day)
    × ((g r).lane ≡ r.lane)
    × (is_live (g r).state ≡ true → is_live r.state ≡ true)
    × (is_outstanding (g r).state ≡ true → is_outstanding r.state ≡ true)
    × ((g r).units ≡ r.units)
    × (charged_units (g r) ≤ charged_units r)
    × (charged_tokens (g r) ≤ charged_tokens r)

module _ (g : Reservation → Reservation) (r : Reservation) (h : Lightens g r) (id : Text) where
  outstanding-lighten : outstanding id (g r) ≤ outstanding id r
  outstanding-lighten = ground (arith, h)

  day_units-lighten : (day : ℕ) → day_units id day (g r) ≤ day_units id day r
  day_units-lighten day = ground (arith, h)

  day_tokens-lighten : (day : ℕ) → day_tokens id day (g r) ≤ day_tokens id day r
  day_tokens-lighten day = ground (arith, h)

  lane_units-lighten :
      (lane : Text) (day : ℕ) → lane_units id lane day (g r) ≤ lane_units id lane day r
  lane_units-lighten lane day = ground (arith, h)

  lane_tokens-lighten :
      (lane : Text) (day : ℕ) → lane_tokens id lane day (g r) ≤ lane_tokens id lane day r
  lane_tokens-lighten lane day = ground (arith, h)

pub NoHeavier-update_where :
    (id : Text) (p : Reservation → Bool) (g : Reservation → Reservation) (rows : List Reservation)
    → ((r : Reservation) → p r ≡ true → Lightens g r)
    → NoHeavier id (update_where p g rows) rows
NoHeavier-update_where id p g rows h = record {
  out =
      sum_by-update_where-le (outstanding id) p g rows (λ r e. outstanding-lighten g r (h r e) id);
  units = λ day.
      sum_by-update_where-le (day_units id day) p g rows
        (λ r e. day_units-lighten g r (h r e) id day);
  tokens = λ day.
      sum_by-update_where-le (day_tokens id day) p g rows
        (λ r e. day_tokens-lighten g r (h r e) id day);
  l_units = λ lane day.
      sum_by-update_where-le (lane_units id lane day) p g rows
        (λ r e. lane_units-lighten g r (h r e) id lane day);
  l_tokens = λ lane day.
      sum_by-update_where-le (lane_tokens id lane day) p g rows
        (λ r e. lane_tokens-lighten g r (h r e) id lane day);
}

-- The update of the one row that a search by id finds.
module _ (g : Reservation → Reservation) (hi key : ℕ) (rows : List Reservation) (row : Reservation)
    (sorted : Between 0 rows hi) (found : find_reservation key rows ≡ some row) where
  pub sum_by-le_of_row :
      (f : Reservation → ℕ)
      → f (g row) ≤ f row
      → sum_by f (update_where (λ r. r.id == key) g rows) ≤ sum_by f rows
  sum_by-le_of_row f h = omega (arith, sum_by-update_one f g 0 hi key rows row sorted found)

  pub NoHeavier-update_one :
      (id : Text) → Lightens g row → NoHeavier id (update_where (λ r. r.id == key) g rows) rows
  NoHeavier-update_one id h = record {
    out = sum_by-le_of_row (outstanding id) (outstanding-lighten g row h id);
    units = λ day. sum_by-le_of_row (day_units id day) (day_units-lighten g row h id day);
    tokens = λ day. sum_by-le_of_row (day_tokens id day) (day_tokens-lighten g row h id day);
    l_units = λ lane day.
        sum_by-le_of_row (lane_units id lane day) (lane_units-lighten g row h id lane day);
    l_tokens = λ lane day.
        sum_by-le_of_row (lane_tokens id lane day) (lane_tokens-lighten g row h id lane day);
  }

  -- The row of another scope weighs nothing, before and after.
  pub NoHeavier-other :
      (id : Text)
      → eq_text row.scope_id id ≡ false
      → (g row).scope_id ≡ row.scope_id
      → NoHeavier id (update_where (λ r. r.id == key) g rows) rows
  NoHeavier-other id other same = record {
    out = sum_by-le_of_row (outstanding id) (ground arith);
    units = λ day. sum_by-le_of_row (day_units id day) (ground arith);
    tokens = λ day. sum_by-le_of_row (day_tokens id day) (ground arith);
    l_units = λ lane day. sum_by-le_of_row (lane_units id lane day) (ground arith);
    l_tokens = λ lane day. sum_by-le_of_row (lane_tokens id lane day) (ground arith);
  }
