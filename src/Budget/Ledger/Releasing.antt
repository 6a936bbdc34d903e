-- ===== src/Budget/Ledger/Releasing.antt =====
-- releaseUnsent of packages/database/src/provider-budget.ts, and what a reservation that is granted adds.
use tech_p.Base.{
  ℕ, ◌+◌, ◌/◌, ◌≡◌, refl, sym, ◌∙◌, ap, true, false, Option, none, some, inl, inr, arith, ◌==◌,
  Bool-cases, ◌≤◌, max_safe, Num, nat, Date, Text, Result, ok, err, ◌>>=◌, throw_if, need,
  bind-eq-ok, ok_injective,
}
use tech_p.Budget.Ledger.{
  Ledger, Scope, LaneLimit, Reservation, ReservationState, BudgetError, reserved, settled, unknown,
  released, reservation_conflict, budget_exhausted, find_reservation, is_reserved, mark_released,
  WorkState, may_have_called, release_row, release_unsent, reserve, admit, exceeds, same_request,
  day_ms, assert_usage,
}
use tech_p.Budget.Ledger.Closing.{is_open, reserved_row, after_update, update-closes}
use tech_p.Budget.Ledger.Reserving.{reserve-Passed, find_attempt}

-- No reservation is open that was not.
abbrev pub NoneOpened : Ledger → Ledger → Type 0
NoneOpened db db' = (n : ℕ) → is_open n db' ≡ true → is_open n db ≡ true

-- The ledger after a transaction: one that throws leaves it as it was.
abbrev pub after : Ledger → Result BudgetError Ledger → Ledger
after db (ok db') = db'
after db (err e) = db

release_row-opens :
    (st : ReservationState) (work : Option WorkState) (id now : ℕ) (db : Ledger)
    → NoneOpened db (after db (release_row st work id now db))
unfolding release_row
release_row-opens released work id now db n h = h
release_row-opens settled work id now db n h = h
release_row-opens unknown work id now db n h = h
release_row-opens reserved work id now db n h = elim (Bool-cases (may_have_called work)) [
  | inl called ↦ rw called at h
  | inr unsent ↦
      after_update (λ r. r.id == id) (mark_released now) db.reservations (λ r. refl) (λ r. refl) n
        (rw unsent at h)
]

pub release_unsent-opens :
    (id : ℕ) (work : Option WorkState) (now : ℕ) (db : Ledger)
    → NoneOpened db (after db (release_unsent id work now db))
unfolding release_unsent
release_unsent-opens id work now db = go (find_reservation id db.reservations)
  where
    go :
        (o : Option Reservation)
        → NoneOpened db
            (after db (need o reservation_conflict >>= λ row. release_row row.state work id now db))
    go none n h = h
    go (some row) n h = release_row-opens row.state work id now db n h

release_row-closes :
    (st : ReservationState) (row : Reservation) (work : Option WorkState) (id now : ℕ) (db : Ledger)
    → find_reservation id db.reservations ≡ some row
    → row.state ≡ st
    → may_have_called work ≡ false
    → is_open id (after db (release_row st work id now db)) ≡ false
unfolding release_row
release_row-closes released row work id now db f h unsent = ap reserved_row f ∙ ap is_reserved h
release_row-closes settled row work id now db f h unsent = ap reserved_row f ∙ ap is_reserved h
release_row-closes unknown row work id now db f h unsent = ap reserved_row f ∙ ap is_reserved h
release_row-closes reserved row work id now db f h unsent = rw unsent (
    update-closes (λ r. r.id == id) (mark_released now) db.reservations id (λ r. refl) (λ r. refl)
      (λ r hit open_row. hit))

-- A reservation with no work item that may have called is not reserved after its release, thrown or not.
pub release_unsent-closes :
    (id : ℕ) (work : Option WorkState) (now : ℕ) (db : Ledger)
    → may_have_called work ≡ false
    → is_open id (after db (release_unsent id work now db)) ≡ false
unfolding release_unsent
release_unsent-closes id work now db unsent = go (find_reservation id db.reservations) refl
  where
    go :
        (o : Option Reservation)
        → find_reservation id db.reservations ≡ o
        → is_open id
            (after db (need o reservation_conflict >>= λ row. release_row row.state work id now db))
          ≡ false
    go none f = ap reserved_row f
    go (some row) f = release_row-closes row.state row work id now db f refl unsent

-- A granted reservation was there before, or it is the next row.
pub data Granted (db : Ledger) (r : Reservation) (db' : Ledger) : Type 0 where
  old : db ≡ db' → Granted db r db'
  fresh : r.id ≡ db.next_id → db'.next_id ≡ db.next_id + 1 → Granted db r db'

admit-Granted :
    (o : Option Reservation) (scope_id : Text) (s : Scope) (limit : LaneLimit)
    (attempt_id lane : Text) (u t ms : ℕ) (db : Ledger) (r : Reservation) (db' : Ledger)
    → admit o scope_id s limit attempt_id lane u t ms db ≡ ok (r, db')
    → Granted db r db'
unfolding admit
admit-Granted (some x) scope_id s limit attempt_id lane u t ms db r db' e =
    elim (Bool-cases (same_request x scope_id lane u t)) [
      | inl same ↦
          let both = ok_injective (rw same at e) in
          Granted.old (ap (λ (y : Reservation × Ledger). y.1) both)
      | inr differs ↦
          let no : Path (Result BudgetError (Reservation × Ledger)) (err reservation_conflict)
              (ok (r, db')) =
            rw differs at e in
          cc
    ]
admit-Granted none scope_id s limit attempt_id lane u t ms db r db' e =
    let (_, _, e1) = bind-eq-ok (throw_if s.blocked budget_exhausted) _ e in
    let (_, _, e2) =
      bind-eq-ok
        (throw_if (exceeds scope_id s limit lane (ms / day_ms) u t db.reservations)
          budget_exhausted)
        _ e1 in
    let both = ok_injective e2 in
    Granted.fresh (sym (ap (λ (y : Reservation × Ledger). y.0.id) both))
      (sym (ap (λ (y : Reservation × Ledger). y.1.next_id) both))

pub reserve-Granted :
    (scope_id attempt_id lane : Text) (units tokens : Num) (now : Date) (db : Ledger)
    (r : Reservation) (db' : Ledger)
    → reserve scope_id attempt_id lane units tokens now db ≡ ok (r, db')
    → Granted db r db'
reserve-Granted scope_id attempt_id lane units tokens now db r db' e =
    let p = reserve-Passed scope_id attempt_id lane units tokens now db r db' e in
    admit-Granted (find_attempt attempt_id db.reservations) scope_id p.scope p.limit attempt_id lane
      p.u p.t p.ms db r db' p.admitted

-- The amounts of a reservation that is granted are safe integers.
pub reserve-safe :
    (scope_id attempt_id lane : Text) (units tokens : ℕ) (now : Date) (db : Ledger)
    (r : Reservation) (db' : Ledger)
    → reserve scope_id attempt_id lane (nat units) (nat tokens) now db ≡ ok (r, db')
    → (units ≤ max_safe) × (tokens ≤ max_safe)
unfolding assert_usage
reserve-safe scope_id attempt_id lane units tokens now db r db' e =
    let p = reserve-Passed scope_id attempt_id lane (nat units) (nat tokens) now db r db' e in
    usage p.u p.t p.amounts
  where
    usage :
        (u t : ℕ)
        → assert_usage (nat units) (nat tokens) ≡ ok (u, t)
        → (units ≤ max_safe) × (tokens ≤ max_safe)
    usage u t h = ground arith
