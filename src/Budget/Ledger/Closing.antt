-- ===== src/Budget/Ledger/Closing.antt =====
-- Which calls of packages/database/src/provider-budget.ts open and close a reservation.
use mathlib.Core.Option
use tech_p.Base.{
  ℕ, ◌/◌, ◌≡◌, ◌≢◌, refl, sym, ◌∙◌, ap, Bool, true, false, ◌&&◌, Option, none, some, List, [], ◌∷◌,
  ◌++◌, arith, if◌then◌else◌, ◌==◌, Bool-cases, Option-cases, inl, inr, find, update_where,
  find-update_where, find_sound, Num, safe_nat, Date, Text, Result, ok, err, ◌>>=◌, throw_if, need,
  bind-eq-ok, ok_injective, need-eq-ok,
}
use tech_p.Budget.Ledger.{
  Ledger, Scope, LaneLimit, Reservation, ReservationState, BudgetError, reserved, settled, unknown,
  released, reservation_conflict, budget_exhausted, find_reservation, is_reserved, mark_settled,
  mark_unknown, settle, settle_row, settle_update, assert_usage, hold_unknown, reserve, admit,
  exceeds, same_request, fresh_reservation, day_ms, is_amount,
}
use tech_p.Budget.Ledger.Reserving.{reserve-Passed, find_attempt}

abbrev pub reserved_row : Option Reservation → Bool
reserved_row none = false
reserved_row (some r) = is_reserved r.state

-- The reservation is there and is reserved.
abbrev pub is_open : ℕ → Ledger → Bool
is_open id db = reserved_row (find_reservation id db.reservations)

-- A row that an update touches is not reserved afterwards.
pub after_update :
    (p : Reservation → Bool) (g : Reservation → Reservation) (rows : List Reservation)
    → ((r : Reservation) → (g r).id ≡ r.id)
    → ((r : Reservation) → is_reserved (g r).state ≡ false)
    → (n : ℕ) → reserved_row (find_reservation n (update_where p g rows)) ≡ true
    → reserved_row (find_reservation n rows) ≡ true
after_update p g rows same shut n h = elim (Option-cases (find_reservation n rows)) [
  | inl no_row ↦
      let gone : false ≡ true = sym (ap reserved_row (law ∙ ap (Option.map change) no_row)) ∙ h in
      cc
  | inr (r, found) ↦
      let held : is_reserved (change r).state ≡ true =
        sym (ap reserved_row (law ∙ ap (Option.map change) found)) ∙ h in
      ap reserved_row found ∙ before r held
]
  where
    change : Reservation → Reservation
    change r = if p r then g r else r

    law : find_reservation n (update_where p g rows) ≡ Option.map change (find_reservation n rows)
    law = find-update_where (λ r. r.id == n) p g rows (λ r. ap (λ k. k == n) (same r))

    before : (r : Reservation) → is_reserved (change r).state ≡ true → is_reserved r.state ≡ true
    before r held = ground (arith, shut r)

-- An update of the reserved row with an id closes it.
pub update-closes :
    (p : Reservation → Bool) (g : Reservation → Reservation) (rows : List Reservation) (n : ℕ)
    → ((r : Reservation) → (g r).id ≡ r.id)
    → ((r : Reservation) → is_reserved (g r).state ≡ false)
    → ((r : Reservation) → r.id == n ≡ true → is_reserved r.state ≡ true → p r ≡ true)
    → reserved_row (find_reservation n (update_where p g rows)) ≡ false
update-closes p g rows n same shut hits = elim (Option-cases (find_reservation n rows)) [
  | inl no_row ↦ ap reserved_row (law ∙ ap (Option.map change) no_row)
  | inr (r, found) ↦
      ap reserved_row (law ∙ ap (Option.map change) found)
      ∙ closed r (find_sound (λ x. x.id == n) rows r found)
]
  where
    change : Reservation → Reservation
    change r = if p r then g r else r

    law : find_reservation n (update_where p g rows) ≡ Option.map change (find_reservation n rows)
    law = find-update_where (λ r. r.id == n) p g rows (λ r. ap (λ k. k == n) (same r))

    closed : (r : Reservation) → r.id == n ≡ true → is_reserved (change r).state ≡ false
    closed r hit = ground (arith, shut r, hits r hit)

pub hold_unknown-closes :
    (id now : ℕ) (db : Ledger)
    → (is_open id (hold_unknown id now db) ≡ false)
      × ((n : ℕ) → is_open n (hold_unknown id now db) ≡ true → is_open n db ≡ true)
unfolding hold_unknown
hold_unknown-closes id now db = (
  update-closes (λ r. r.id == id && is_reserved r.state) (mark_unknown now) db.reservations id
      (λ r. refl) (λ r. refl) (λ r hit open_row. ground arith),
  after_update (λ r. r.id == id && is_reserved r.state) (mark_unknown now) db.reservations
      (λ r. refl) (λ r. refl),
)

update_settles :
    (row : Reservation) (id u t now : ℕ) (db db' : Ledger)
    → settle_update row id u t now db ≡ db'
    → (is_open id db' ≡ false) × ((n : ℕ) → is_open n db' ≡ true → is_open n db ≡ true)
update_settles row id u t now db db' same =
    let rows = ap (λ (x : Ledger). x.reservations) same in
    (
      ap (λ rs. reserved_row (find_reservation id rs)) (sym rows)
          ∙ update-closes (λ r. r.id == id) (mark_settled u t now) db.reservations id (λ r. refl)
              (λ r. refl) (λ r hit open_row. hit),
      λ n h.
          after_update (λ r. r.id == id) (mark_settled u t now) db.reservations (λ r. refl)
            (λ r. refl) n (ap (λ rs. reserved_row (find_reservation n rs)) rows ∙ h),
    )

-- A row that is appended is not the row of another id.
old_row :
    (n : ℕ) (row : Reservation) (rows : List Reservation)
    → n ≢ row.id
    → reserved_row (find_reservation n (rows ++ row ∷ [])) ≡ true
    → reserved_row (find_reservation n rows) ≡ true
unfolding find
old_row n row [] other h = ground arith
old_row n row (r ∷ rs) other h = ground (arith, old_row n row rs other)

settle_row-closes :
    (st : ReservationState) (row : Reservation) (id u t now : ℕ) (db db' : Ledger)
    → find_reservation id db.reservations ≡ some row
    → row.state ≡ st
    → settle_row st row id u t now db ≡ ok db'
    → (is_open id db' ≡ false) × ((n : ℕ) → is_open n db' ≡ true → is_open n db ≡ true)
unfolding settle_row
settle_row-closes released row id u t now db db' f h e = cc
settle_row-closes settled row id u t now db db' f h e =
    elim (Bool-cases (is_amount row.actual_units u && is_amount row.actual_tokens t)) [
      | inl same ↦
          let kept : db ≡ db' = ok_injective (rw same at e) in
          let shut : is_open id db ≡ false = ap reserved_row f ∙ ap is_reserved h in
          (ap (is_open id) (sym kept) ∙ shut, λ n open_row. ap (is_open n) kept ∙ open_row)
      | inr other ↦ let no : err reservation_conflict ≡ ok db' = rw other at e in cc
    ]
settle_row-closes reserved row id u t now db db' f h e =
    update_settles row id u t now db db' (ok_injective e)
settle_row-closes unknown row id u t now db db' f h e =
    update_settles row id u t now db db' (ok_injective e)

pub settle-closes :
    (id : ℕ) (units tokens : Num) (now : ℕ) (db db' : Ledger)
    → settle id units tokens now db ≡ ok db'
    → (is_open id db' ≡ false) × ((n : ℕ) → is_open n db' ≡ true → is_open n db ≡ true)
unfolding settle
settle-closes id units tokens now db db' e =
    let ((u, t), _, e1) = bind-eq-ok (assert_usage units tokens) _ e in
    let (row, f, e2) =
      bind-eq-ok (need (find_reservation id db.reservations) reservation_conflict) _ e1 in
    settle_row-closes row.state row id u t now db db'
      (need-eq-ok (find_reservation id db.reservations) reservation_conflict f) refl e2

settle_row-refuses :
    (st : ReservationState) (row : Reservation) (id u t now : ℕ) (db : Ledger) (x : BudgetError)
    → settle_row st row id u t now db ≡ err x
    → is_reserved st ≡ false
unfolding settle_row
settle_row-refuses released row id u t now db x e = refl
settle_row-refuses settled row id u t now db x e = refl
settle_row-refuses unknown row id u t now db x e = refl
settle_row-refuses reserved row id u t now db x e = cc

-- A settlement of amounts that are numbers is refused only if the reservation is not reserved.
pub settle-refuses :
    (id a b : ℕ) (units tokens : Num) (now : ℕ) (db : Ledger) (x : BudgetError)
    → safe_nat units ≡ some a
    → safe_nat tokens ≡ some b
    → settle id units tokens now db ≡ err x
    → is_open id db ≡ false
unfolding settle assert_usage
settle-refuses id a b units tokens now db x u t e =
    go (find_reservation id db.reservations) (rw (u, t) at e)
  where
    go :
        (o : Option Reservation)
        → (need o reservation_conflict >>= λ row. settle_row row.state row id a b now db) ≡ err x
        → reserved_row o ≡ false
    go none h = refl
    go (some row) h = settle_row-refuses row.state row id a b now db x h

admit-opens :
    (o : Option Reservation) (scope_id : Text) (s : Scope) (limit : LaneLimit)
    (attempt_id lane : Text) (u t ms : ℕ) (db : Ledger) (r : Reservation) (db' : Ledger)
    → admit o scope_id s limit attempt_id lane u t ms db ≡ ok (r, db')
    → (n : ℕ) → n ≢ r.id
    → is_open n db' ≡ true
    → is_open n db ≡ true
unfolding admit
admit-opens (some old) scope_id s limit attempt_id lane u t ms db r db' e n other h =
    elim (Bool-cases (same_request old scope_id lane u t)) [
      | inl same ↦
          let both = ok_injective (rw same at e) in
          let kept : db ≡ db' = ap (λ (x : Reservation × Ledger). x.1) both in
          ap (is_open n) kept ∙ h
      | inr differs ↦
          let no : Path (Result BudgetError (Reservation × Ledger)) (err reservation_conflict)
              (ok (r, db')) =
            rw differs at e in
          cc
    ]
admit-opens none scope_id s limit attempt_id lane u t ms db r db' e n other h =
    let (_, _, e1) = bind-eq-ok (throw_if s.blocked budget_exhausted) _ e in
    let (_, _, e2) =
      bind-eq-ok
        (throw_if (exceeds scope_id s limit lane (ms / day_ms) u t db.reservations)
          budget_exhausted)
        _ e1 in
    let both = ok_injective e2 in
    let row = fresh_reservation db.next_id scope_id attempt_id lane u t ms in
    let this : row ≡ r = ap (λ (x : Reservation × Ledger). x.0) both in
    let rows : db.reservations ++ row ∷ [] ≡ db'.reservations =
      ap (λ (x : Reservation × Ledger). x.1.reservations) both in
    old_row n row db.reservations (λ k. other (k ∙ ap (λ (x : Reservation). x.id) this))
      (ap (λ rs. reserved_row (find_reservation n rs)) rows ∙ h)

pub reserve-opens :
    (scope_id attempt_id lane : Text) (units tokens : Num) (now : Date) (db : Ledger)
    (r : Reservation) (db' : Ledger)
    → reserve scope_id attempt_id lane units tokens now db ≡ ok (r, db')
    → (n : ℕ) → n ≢ r.id
    → is_open n db' ≡ true
    → is_open n db ≡ true
reserve-opens scope_id attempt_id lane units tokens now db r db' e =
    let p = reserve-Passed scope_id attempt_id lane units tokens now db r db' e in
    admit-opens (find_attempt attempt_id db.reservations) scope_id p.scope p.limit attempt_id lane
      p.u p.t p.ms db r db' p.admitted
