-- ===== src/Budget/Ledger.antt =====
-- packages/database/src/provider-budget.ts: the ledger of provider budgets. The two tables are lists
-- of rows, a transaction is a function from the ledger to a result, and a transaction that throws
-- leaves no ledger behind. Row ids, which the database draws, are counted up from `next_id`.
pub mod Rows
pub mod Configuring
pub mod Within
pub mod Keeps
pub mod Admission
pub mod Reserving
pub mod Evolving
pub mod Closing
pub mod Releasing
pub mod Traces
pub mod Retries
mod Tests
use tech_p.Base.{
  ℕ, ◌+◌, ◌/◌, Bool, true, false, not, ◌&&◌, ◌||◌, Option, none, some, List, [], ◌∷◌, ◌++◌,
  if◌then◌else◌, ltb, leb, ◌==◌, get_or_else, Num, safe_nat, nat, Date, at, invalid, length, find,
  all, update_where, sum_by, Result, ok, err, ◌>>=◌, ◌>>◌, throw_if, need, Text, eq_text,
}

pub data BudgetError : Type 0 where
  budget_exhausted approval_required invalid_usage reservation_conflict stale_work outcome_unknown :
      BudgetError

pub record LaneLimit : Type 0 where
  pub max_daily_units : ℕ
  pub max_daily_tokens : ℕ

-- A row of provider_budget_scopes.
pub record Scope : Type 0 where
  pub id : Text
  pub approved : Bool
  pub currency : Text
  pub max_daily_units : ℕ
  pub max_outstanding_units : ℕ
  pub max_daily_tokens : ℕ
  pub lane_limits : List (Text × LaneLimit)
  pub approved_model_profiles : List Text
  pub blocked : Bool

pub data ReservationState : Type 0 where
  reserved settled unknown released : ReservationState

-- A row of provider_budget_reservations. The column `utc_day` holds the date of the reservation: the
-- number of days since the epoch here.
pub record Reservation : Type 0 where
  pub id : ℕ
  pub scope_id : Text
  pub attempt_id : Text
  pub lane : Text
  pub utc_day : ℕ
  pub units : ℕ
  pub tokens : ℕ
  pub state : ReservationState
  pub actual_units : Option ℕ
  pub actual_tokens : Option ℕ
  pub created_at : ℕ
  pub updated_at : ℕ

pub record Ledger : Type 0 where
  pub scopes : List Scope
  pub reservations : List Reservation
  pub next_id : ℕ

-- The number of milliseconds of a day.
abbrev pub day_ms : ℕ
day_ms = 86400000

abbrev pub is_live : ReservationState → Bool
is_live released = false
is_live _ = true

abbrev pub is_outstanding : ReservationState → Bool
is_outstanding reserved = true
is_outstanding unknown = true
is_outstanding _ = false

abbrev pub find_scope : Text → List Scope → Option Scope
find_scope id scopes = find (λ s. eq_text s.id id) scopes

abbrev pub find_reservation : ℕ → List Reservation → Option Reservation
find_reservation id rows = find (λ r. r.id == id) rows

-- `scope.laneLimits[lane]`
unfoldable pub lane_limit : Text → List (Text × LaneLimit) → Option LaneLimit
lane_limit lane [] = none
lane_limit lane ((name, limit) ∷ rest) =
    if eq_text name lane then some limit else lane_limit lane rest

-- assertUsage, with the values that it lets through.
pub assert_usage : Num → Num → Result BudgetError (ℕ × ℕ)
assert_usage units tokens = do
  u ← need (safe_nat units) invalid_usage
  t ← need (safe_nat tokens) invalid_usage
  ok (u, t)

-- What a live reservation counts for: what it cost, once settled, or what it may cost.
abbrev pub charged_units : Reservation → ℕ
charged_units r = get_or_else r.actual_units r.units

abbrev pub charged_tokens : Reservation → ℕ
charged_tokens r = get_or_else r.actual_tokens r.tokens

-- The terms of the five sums of `reserve`, the conditions of its WHERE included.
abbrev pub day_units : Text → ℕ → Reservation → ℕ
day_units scope_id day r =
    if eq_text r.scope_id scope_id && is_live r.state && r.utc_day == day
    then charged_units r
    else 0

abbrev pub day_tokens : Text → ℕ → Reservation → ℕ
day_tokens scope_id day r =
    if eq_text r.scope_id scope_id && is_live r.state && r.utc_day == day
    then charged_tokens r
    else 0

abbrev pub outstanding : Text → Reservation → ℕ
outstanding scope_id r =
    if eq_text r.scope_id scope_id && is_live r.state && is_outstanding r.state then r.units else 0

abbrev pub lane_units : Text → Text → ℕ → Reservation → ℕ
lane_units scope_id lane day r =
    if eq_text r.scope_id scope_id && is_live r.state && (r.utc_day == day && eq_text r.lane lane)
    then charged_units r
    else 0

abbrev pub lane_tokens : Text → Text → ℕ → Reservation → ℕ
lane_tokens scope_id lane day r =
    if eq_text r.scope_id scope_id && is_live r.state && (r.utc_day == day && eq_text r.lane lane)
    then charged_tokens r
    else 0

-- The condition under which `reserve` throws budget_exhausted.
unfoldable pub exceeds : Text → Scope → LaneLimit → Text → ℕ → ℕ → ℕ → List Reservation → Bool
exceeds id s limit lane day u t rows =
    ltb s.max_daily_units (sum_by (day_units id day) rows + u)
    || ltb s.max_daily_tokens (sum_by (day_tokens id day) rows + t)
    || ltb s.max_outstanding_units (sum_by (outstanding id) rows + u)
    || ltb limit.max_daily_units (sum_by (lane_units id lane day) rows + u)
    || ltb limit.max_daily_tokens (sum_by (lane_tokens id lane day) rows + t)

-- `!scope?.approved || !scope.laneLimits[lane]`
pub approved_lane : Option Scope → Text → Result BudgetError (Scope × LaneLimit)
approved_lane none lane = err approval_required
approved_lane (some s) lane = do
  throw_if (not s.approved) approval_required
  limit ← need (lane_limit lane s.lane_limits) approval_required
  ok (s, limit)

abbrev pub same_request : Reservation → Text → Text → ℕ → ℕ → Bool
same_request r scope_id lane u t =
    eq_text r.scope_id scope_id && eq_text r.lane lane && r.units == u && r.tokens == t

abbrev pub fresh_reservation : ℕ → Text → Text → Text → ℕ → ℕ → ℕ → Reservation
fresh_reservation id scope_id attempt_id lane u t now = record {
  id = id;
  scope_id = scope_id;
  attempt_id = attempt_id;
  lane = lane;
  utc_day = now / day_ms;
  units = u;
  tokens = t;
  state = reserved;
  actual_units = none;
  actual_tokens = none;
  created_at = now;
  updated_at = now;
}

-- The part of `reserve` behind the lookup of the scope.
pub admit :
    Option Reservation
    → Text
    → Scope
    → LaneLimit
    → Text
    → Text
    → ℕ
    → ℕ
    → ℕ
    → Ledger
    → Result BudgetError (Reservation × Ledger)
admit (some r) scope_id s limit attempt_id lane u t now db =
    if same_request r scope_id lane u t then ok (r, db) else err reservation_conflict
admit none scope_id s limit attempt_id lane u t now db = do
  throw_if s.blocked budget_exhausted
  throw_if (exceeds scope_id s limit lane (now / day_ms) u t db.reservations) budget_exhausted
  let row = fresh_reservation db.next_id scope_id attempt_id lane u t now
  ok (row, record db { reservations = db.reservations ++ row ∷ []; next_id = db.next_id + 1 })

abbrev pub valid_time : Date → Option ℕ
valid_time (at ms) = some ms
valid_time invalid = none

abbrev pub is_empty : Text → Bool
is_empty [] = true
is_empty _ = false

unfoldable pub reserve :
    Text → Text → Text → Num → Num → Date → Ledger → Result BudgetError (Reservation × Ledger)
unfolding assert_usage approved_lane admit
reserve scope_id attempt_id lane units tokens now db = do
  (u, t) ← assert_usage units tokens
  throw_if (is_empty attempt_id || ltb 256 (length attempt_id)) invalid_usage
  ms ← need (valid_time now) invalid_usage
  (s, limit) ← approved_lane (find_scope scope_id db.scopes) lane
  admit (find (λ r. eq_text r.attempt_id attempt_id) db.reservations) scope_id s limit attempt_id
      lane u t ms db

abbrev pub is_reserved : ReservationState → Bool
is_reserved reserved = true
is_reserved _ = false

abbrev pub mark_settled : ℕ → ℕ → ℕ → Reservation → Reservation
mark_settled u t now r = record r {
  state = settled;
  actual_units = some u;
  actual_tokens = some t;
  updated_at = now;
}

abbrev pub mark_unknown : ℕ → Reservation → Reservation
mark_unknown now r = record r { state = unknown; updated_at = now }

abbrev pub mark_released : ℕ → Reservation → Reservation
mark_released now r = record r { state = released; updated_at = now }

-- `row.actualUnits !== units`, for a column that may be null
abbrev pub is_amount : Option ℕ → ℕ → Bool
is_amount none n = false
is_amount (some m) n = m == n

-- The update of `settle`: the row is settled, and an overrun blocks its scope.
abbrev pub settle_update : Reservation → ℕ → ℕ → ℕ → ℕ → Ledger → Ledger
settle_update row id u t now db = record db {
  reservations = update_where (λ r. r.id == id) (mark_settled u t now) db.reservations;
  scopes =
      if ltb row.units u || ltb row.tokens t
      then update_where (λ s. eq_text s.id row.scope_id) (λ s. record s { blocked = true })
          db.scopes
      else db.scopes;
}

pub settle_row : ReservationState → Reservation → ℕ → ℕ → ℕ → ℕ → Ledger → Result BudgetError Ledger
settle_row released row id u t now db = err reservation_conflict
settle_row settled row id u t now db =
    if is_amount row.actual_units u && is_amount row.actual_tokens t
    then ok db
    else err reservation_conflict
settle_row _ row id u t now db = ok (settle_update row id u t now db)

unfoldable pub settle : ℕ → Num → Num → ℕ → Ledger → Result BudgetError Ledger
unfolding assert_usage settle_row
settle id units tokens now db = do
  (u, t) ← assert_usage units tokens
  row ← need (find_reservation id db.reservations) reservation_conflict
  settle_row row.state row id u t now db

unfoldable pub hold_unknown : ℕ → ℕ → Ledger → Ledger
hold_unknown id now db = record db {
  reservations =
      update_where (λ r. r.id == id && is_reserved r.state) (mark_unknown now) db.reservations;
}

-- The states of an embedding work item.
pub data WorkState : Type 0 where
  pending claimed calling completed outcome_unknown failed : WorkState

abbrev pub may_have_called : Option WorkState → Bool
may_have_called (some WorkState.calling) = true
may_have_called (some WorkState.completed) = true
may_have_called (some WorkState.outcome_unknown) = true
may_have_called _ = false

unfoldable pub release_row :
    ReservationState → Option WorkState → ℕ → ℕ → Ledger → Result BudgetError Ledger
release_row released work id now db = ok db
release_row reserved work id now db = do
  throw_if (may_have_called work) BudgetError.outcome_unknown
  ok (record db {
    reservations = update_where (λ r. r.id == id) (mark_released now) db.reservations;
  })
release_row _ work id now db = err BudgetError.outcome_unknown

-- `work` is the state of the embedding work item that is bound to the reservation, if there is one.
unfoldable pub release_unsent : ℕ → Option WorkState → ℕ → Ledger → Result BudgetError Ledger
unfolding release_row
release_unsent id work now db = do
  row ← need (find_reservation id db.reservations) reservation_conflict
  release_row row.state work id now db
