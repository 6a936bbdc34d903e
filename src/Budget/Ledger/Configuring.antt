-- ===== src/Budget/Ledger/Configuring.antt =====
-- configureScope of packages/database/src/provider-budget.ts.
use tech_p.Base.{
  ℕ, Bool, false, not, ◌&&◌, ◌||◌, Option, none, some, List, [], ◌∷◌, ◌++◌, leb, ◌==◌, Num, nat,
  length, all, update_where, Result, ok, ◌>>=◌, ◌>>◌, throw_if, Text, eq_text,
}
use tech_p.Budget.Ledger.{
  BudgetError, LaneLimit, Scope, Ledger, find_scope, assert_usage, is_empty, invalid_usage,
  reservation_conflict,
}

-- The scope that `configureScope` is given: its limits are JavaScript numbers still.
pub record ScopeInput : Type 0 where
  pub id : Text
  pub approved : Bool
  pub currency : Text
  pub max_daily_units : Num
  pub max_outstanding_units : Num
  pub max_daily_tokens : Num
  pub lane_limits : List (Text × Num × Num)
  pub approved_model_profiles : List Text

-- `/^[A-Z]{3}$/u`
unfoldable pub is_currency : Text → Bool
is_currency (a ∷ b ∷ c ∷ []) =
    leb b'A' a && leb a b'Z' && (leb b'A' b && leb b b'Z') && (leb b'A' c && leb c b'Z')
is_currency _ = false

-- `/^[a-f0-9]{64}$/u`
abbrev pub is_hex : ℕ → Bool
is_hex c = (leb b'a' c && leb c b'f') || (leb b'0' c && leb c b'9')

unfoldable pub is_sha256 : Text → Bool
is_sha256 s = length s == 64 && all is_hex s

unfoldable pub check_lanes : List (Text × Num × Num) → Result BudgetError (List (Text × LaneLimit))
unfolding assert_usage
check_lanes [] = ok []
check_lanes ((name, units, tokens) ∷ rest) = do
  (u, t) ← assert_usage units tokens
  checked ← check_lanes rest
  ok ((name, record { max_daily_units = u; max_daily_tokens = t }) ∷ checked)

-- `set(scope)`: the input has no field `blocked`, so the column keeps its value.
abbrev pub overwrite_scope : Scope → Scope → Scope
overwrite_scope new old = record new { blocked = old.blocked }

unfoldable pub store_scope : Option Scope → Scope → List Scope → Result BudgetError (List Scope)
store_scope none new scopes = ok (scopes ++ new ∷ [])
store_scope (some existing) new scopes = do
  throw_if (not (eq_text existing.currency new.currency)) reservation_conflict
  ok (update_where (λ s. eq_text s.id new.id) (overwrite_scope new) scopes)

unfoldable pub configure_scope : ScopeInput → Ledger → Result BudgetError Ledger
unfolding assert_usage check_lanes store_scope
configure_scope input db = do
  (u, t) ← assert_usage input.max_daily_units input.max_daily_tokens
  (o, _) ← assert_usage input.max_outstanding_units (nat 0)
  throw_if (not (is_currency input.currency) || is_empty input.id) invalid_usage
  lanes ← check_lanes input.lane_limits
  throw_if (not (all is_sha256 input.approved_model_profiles)) invalid_usage
  let new : Scope = record {
    id = input.id;
    approved = input.approved;
    currency = input.currency;
    max_daily_units = u;
    max_outstanding_units = o;
    max_daily_tokens = t;
    lane_limits = lanes;
    approved_model_profiles = input.approved_model_profiles;
    blocked = false;
  }
  scopes ← store_scope (find_scope input.id db.scopes) new db.scopes
  ok (record db { scopes = scopes })
