-- ===== src/Budget/Ledger/Traces.antt =====
-- Sequences of calls of the port that packages/database/src/provider-budget.ts implements. A call
-- that throws is rolled back. A call that spends is any but `configureScope`, which changes limits.
use tech_p.Base.{
  ℕ, ◌≡◌, refl, Bool, true, false, Option, some, List, [], ◌∷◌, arith, sum_by, all, inr, Text, Num,
  Date, Result, ok, err,
}
use tech_p.Budget.Ledger.{
  Ledger, Scope, Reservation, WorkState, BudgetError, find_scope, reserve, settle, hold_unknown,
  release_unsent,
}
use tech_p.Budget.Ledger.Within.{IsSound, WithinLimits}
use tech_p.Budget.Ledger.Keeps.{settle-IsSound, hold_unknown-IsSound, release_unsent-IsSound}
use tech_p.Budget.Ledger.Reserving.{reserve-IsSound}
use tech_p.Budget.Ledger.Configuring.{ScopeInput, configure_scope}
use tech_p.Budget.Ledger.Evolving.{
  Evolves, Evolves-same, Evolves-trans, IsBlocked, reserve-Evolves, settle-Evolves,
  hold_unknown-Evolves, release_unsent-Evolves, configure_scope-IsBlocked,
}

pub data Call : Type 0 where
  reserving : Text → Text → Text → Num → Num → Date → Call
  settling : ℕ → Num → Num → ℕ → Call
  holding : ℕ → ℕ → Call
  releasing : ℕ → Option WorkState → ℕ → Call
  configuring : ScopeInput → Call

abbrev pub is_spending : Call → Bool
is_spending (configuring input) = false
is_spending _ = true

-- The ledger after a transaction, which is rolled back if it throws.
abbrev after : Result BudgetError Ledger → Ledger → Ledger
after (ok db') db = db'
after (err e) db = db

abbrev after_reserve : Result BudgetError (Reservation × Ledger) → Ledger → Ledger
after_reserve (ok (r, db')) db = db'
after_reserve (err e) db = db

pub step : Call → Ledger → Ledger
step (reserving scope_id attempt_id lane units tokens now) db =
    after_reserve (reserve scope_id attempt_id lane units tokens now db) db
step (settling id units tokens now) db = after (settle id units tokens now db) db
step (holding id now) db = hold_unknown id now db
step (releasing id work now) db = after (release_unsent id work now db) db
step (configuring input) db = after (configure_scope input db) db

unfoldable pub run : List Call → Ledger → Ledger
unfolding step
run [] db = db
run (c ∷ cs) db = run cs (step c db)

after-IsSound :
    (r : Result BudgetError Ledger) (db : Ledger)
    → ((db' : Ledger) → r ≡ ok db' → IsSound db')
    → IsSound db
    → IsSound (after r db)
after-IsSound (ok db') db keep h = keep db' refl
after-IsSound (err e) db keep h = h

after_reserve-IsSound :
    (r : Result BudgetError (Reservation × Ledger)) (db : Ledger)
    → ((row : Reservation) (db' : Ledger) → r ≡ ok (row, db') → IsSound db')
    → IsSound db
    → IsSound (after_reserve r db)
after_reserve-IsSound (ok (row, db')) db keep h = keep row db' refl
after_reserve-IsSound (err e) db keep h = h

step-IsSound : (c : Call) (db : Ledger) → is_spending c ≡ true → IsSound db → IsSound (step c db)
unfolding step
step-IsSound (reserving scope_id attempt_id lane units tokens now) db spends h =
    after_reserve-IsSound (reserve scope_id attempt_id lane units tokens now db) db
      (λ row db' e. reserve-IsSound scope_id attempt_id lane units tokens now db row db' e h) h
step-IsSound (settling id units tokens now) db spends h =
    after-IsSound (settle id units tokens now db) db
      (λ db' e. settle-IsSound id units tokens now db db' e h) h
step-IsSound (holding id now) db spends h = hold_unknown-IsSound id now db h
step-IsSound (releasing id work now) db spends h =
    after-IsSound (release_unsent id work now db) db
      (λ db' e. release_unsent-IsSound id now work db db' e h) h
step-IsSound (configuring input) db spends h = absurd cc

pub run-IsSound :
    (cs : List Call) (db : Ledger) → all is_spending cs ≡ true → IsSound db → IsSound (run cs db)
unfolding run all
run-IsSound [] db spend h = h
run-IsSound (c ∷ cs) db spend h =
    run-IsSound cs (step c db) (ground arith) (step-IsSound c db (ground arith) h)

after-Evolves :
    (r : Result BudgetError Ledger) (db : Ledger)
    → ((db' : Ledger) → r ≡ ok db' → Evolves db db')
    → Evolves db (after r db)
after-Evolves (ok db') db keep = keep db' refl
after-Evolves (err e) db keep = Evolves-same db

after_reserve-Evolves :
    (r : Result BudgetError (Reservation × Ledger)) (db : Ledger)
    → ((row : Reservation) (db' : Ledger) → r ≡ ok (row, db') → Evolves db db')
    → Evolves db (after_reserve r db)
after_reserve-Evolves (ok (row, db')) db keep = keep row db' refl
after_reserve-Evolves (err e) db keep = Evolves-same db

step-Evolves : (c : Call) (db : Ledger) → is_spending c ≡ true → Evolves db (step c db)
unfolding step
step-Evolves (reserving scope_id attempt_id lane units tokens now) db spends =
    after_reserve-Evolves (reserve scope_id attempt_id lane units tokens now db) db
      (λ row db' e. reserve-Evolves scope_id attempt_id lane units tokens now db row db' e)
step-Evolves (settling id units tokens now) db spends =
    after-Evolves (settle id units tokens now db) db
      (λ db' e. settle-Evolves id units tokens now db db' e)
step-Evolves (holding id now) db spends = hold_unknown-Evolves id now db
step-Evolves (releasing id work now) db spends =
    after-Evolves (release_unsent id work now db) db
      (λ db' e. release_unsent-Evolves id work now db db' e)
step-Evolves (configuring input) db spends = absurd cc

-- Spending calls keep what every reservation asked for, and the approval and the limits of every scope.
pub run-Evolves :
    (cs : List Call) (db : Ledger) → all is_spending cs ≡ true → Evolves db (run cs db)
unfolding run all
run-Evolves [] db spend = Evolves-same db
run-Evolves (c ∷ cs) db spend =
    Evolves-trans db (step c db) (run cs (step c db)) (step-Evolves c db (ground arith))
      (run-Evolves cs (step c db) (ground arith))

Evolves-IsBlocked :
    (k : Text) (db db' : Ledger) → Evolves db db' → IsBlocked k db.scopes → IsBlocked k db'.scopes
Evolves-IsBlocked k db db' evolves (s, e, h) =
    let (y, f, (_, _, keeps)) = evolves.scopes k s e in (y, f, keeps h)

step-IsBlocked :
    (k : Text) (c : Call) (db : Ledger) → IsBlocked k db.scopes → IsBlocked k (step c db).scopes
unfolding step
step-IsBlocked k (configuring input) db b = go (configure_scope input db) refl
  where
    go :
        (m : Result BudgetError Ledger)
        → configure_scope input db ≡ m
        → IsBlocked k (after m db).scopes
    go (ok db') e = configure_scope-IsBlocked k input db db' e b
    go (err x) e = b
step-IsBlocked k (reserving scope_id attempt_id lane units tokens now) db b =
    let c = reserving scope_id attempt_id lane units tokens now in
    Evolves-IsBlocked k db (step c db) (step-Evolves c db refl) b
step-IsBlocked k (settling id units tokens now) db b =
    let c = settling id units tokens now in
    Evolves-IsBlocked k db (step c db) (step-Evolves c db refl) b
step-IsBlocked k (holding id now) db b =
    let c = holding id now in Evolves-IsBlocked k db (step c db) (step-Evolves c db refl) b
step-IsBlocked k (releasing id work now) db b =
    let c = releasing id work now in Evolves-IsBlocked k db (step c db) (step-Evolves c db refl) b

-- A scope that is blocked stays blocked, whatever calls are made.
pub run-IsBlocked :
    (k : Text) (cs : List Call) (db : Ledger)
    → IsBlocked k db.scopes
    → IsBlocked k (run cs db).scopes
unfolding run
run-IsBlocked k [] db b = b
run-IsBlocked k (c ∷ cs) db b = run-IsBlocked k cs (step c db) (step-IsBlocked k c db b)

-- A ledger with scopes and no reservation yet.
abbrev pub opened : List Scope → Ledger
opened scopes = record { scopes = scopes; reservations = []; next_id = 0 }

opened-IsSound : (scopes : List Scope) → IsSound (opened scopes)
unfolding sum_by
opened-IsSound scopes = record {
  unique = omega arith;
  honest = tt;
  within = λ id s e. record {
    outstanding_ok = omega arith;
    daily_ok = inr λ day. record {
      units_ok = omega arith;
      tokens_ok = omega arith;
      lanes_ok = λ lane limit f. (omega arith, omega arith);
    };
  };
}

-- From an empty table of reservations and any scopes, whatever reservations, settlements, holds and releases
-- are called, in any order and with any arguments, no scope has more units outstanding than its limit, and
-- a scope that is not blocked has on no day been charged, in total or in one lane, more units or tokens
-- than its limits. Limits stay what they are: no call configures a scope.
pub never_overspent :
    (scopes : List Scope) (cs : List Call) (id : Text) (s : Scope)
    → all is_spending cs ≡ true
    → find_scope id (run cs (opened scopes)).scopes ≡ some s
    → WithinLimits s (run cs (opened scopes)).reservations
never_overspent scopes cs id s spend e =
    (run-IsSound cs (opened scopes) spend (opened-IsSound scopes)).within id s e
