-- ===== src/Budget/Ledger/Keeps.antt =====
-- The transactions of packages/database/src/provider-budget.ts that move a reservation, and the
-- invariant of Budget/Ledger/Within.antt.
use mathlib.Core.Option
use mathlib.Core.Path.{subst}
use tech_p.Base.{
  ℕ, ◌≤◌, ◌≡◌, refl, sym, ◌∙◌, ◌||◌, eq_text_sym, Bool, true, false, Option, some, none, List,
  if◌then◌else◌, ltb, ◌==◌, arith, All-find, All-update_where, update_where, find-update_where, inl,
  inr, Bool-cases, Text, eq_text, ◌&&◌, ok, bind-eq-ok, need-eq-ok, throw_if, need, Num,
}
use tech_p.Budget.Ledger.{
  Ledger, Scope, Reservation, ReservationState, reserved, settled, unknown, released, find_scope,
  find_reservation, outstanding, is_outstanding, settle_update, mark_settled, mark_unknown,
  mark_released, hold_unknown, is_reserved, BudgetError, settle_row, assert_usage, settle,
  release_row, release_unsent, WorkState, may_have_called,
}
use tech_p.Budget.Ledger.Rows.{Between-update_where}
use tech_p.Budget.Ledger.Within.{
  IsSound, WithinLimits, IsHonest, Lightens, NoHeavier-update_where, NoHeavier-update_one,
  NoHeavier-other, WithinLimits-lighter, sum_by-le_of_row,
}

-- An update of reservations that lightens the rows that it changes.
update_rows-IsSound :
    (p : Reservation → Bool) (g : Reservation → Reservation) (db : Ledger)
    → ((r : Reservation) → (g r).id ≡ r.id)
    → ((r : Reservation) → p r ≡ true → IsHonest r → IsHonest (g r))
    → ((r : Reservation) → p r ≡ true → Lightens g r)
    → IsSound db
    → IsSound (record db { reservations = update_where p g db.reservations })
update_rows-IsSound p g db ids hon light h = record {
  unique = Between-update_where 0 db.next_id p g db.reservations ids h.unique;
  honest = All-update_where IsHonest p g db.reservations hon h.honest;
  within = λ id s e.
      WithinLimits-lighter s (update_where p g db.reservations) db.reservations
        (NoHeavier-update_where s.id p g db.reservations light) (h.within id s e);
}

-- Holding a reservation keeps the ledger sound.
pub hold_unknown-IsSound :
    (id now : ℕ) (db : Ledger) → IsSound db → IsSound (hold_unknown id now db)
unfolding hold_unknown
hold_unknown-IsSound id now db h =
    update_rows-IsSound (λ r. r.id == id && is_reserved r.state) (mark_unknown now) db (λ r. refl)
      (λ r hit hon e. hon (ground arith)) (λ r hit. ground arith) h

release_row-IsSound :
    (st : ReservationState) (work : Option WorkState) (id now : ℕ) (db db' : Ledger)
    → release_row st work id now db ≡ ok db'
    → IsSound db
    → IsSound db'
unfolding release_row
release_row-IsSound released work id now db db' e h =
    let same : db ≡ db' = cc in subst IsSound same h
release_row-IsSound reserved work id now db db' e h =
    let (u, _, e') = bind-eq-ok (throw_if (may_have_called work) BudgetError.outcome_unknown) _ e in
    let same : record db {
      reservations = update_where (λ r. r.id == id) (mark_released now) db.reservations;
    }
        ≡ db' =
      cc in
    subst IsSound same (
      update_rows-IsSound (λ r. r.id == id) (mark_released now) db (λ r. refl) (λ r hit hon x. cc)
        (λ r hit. ground arith) h)
release_row-IsSound settled work id now db db' e h = cc
release_row-IsSound unknown work id now db db' e h = cc

-- Giving a reservation back keeps the ledger sound.
pub release_unsent-IsSound :
    (id now : ℕ) (work : Option WorkState) (db db' : Ledger)
    → release_unsent id work now db ≡ ok db'
    → IsSound db
    → IsSound db'
unfolding release_unsent
release_unsent-IsSound id now work db db' e h =
    let (row, _, e') = bind-eq-ok (need (find_reservation id db.reservations) _) _ e in
    release_row-IsSound row.state work id now db db' e' h

module _ (db : Ledger) (sound : IsSound db) (row : Reservation) (id u t now : ℕ)
    (found : find_reservation id db.reservations ≡ some row)
    (out : is_outstanding row.state ≡ true) where
  settled_rows : List Reservation
  settled_rows = update_where (λ r. r.id == id) (mark_settled u t now) db.reservations

  row-IsHonest : (row.actual_units ≡ none) × (row.actual_tokens ≡ none)
  row-IsHonest = All-find IsHonest (λ r. r.id == id) db.reservations row sound.honest found out

  settled-lighter :
      (s : Scope)
      → u ≤ row.units
      → t ≤ row.tokens
      → WithinLimits s db.reservations
      → WithinLimits s settled_rows
  unfolding settled_rows
  settled-lighter s hu ht = WithinLimits-lighter s settled_rows db.reservations (
      NoHeavier-update_one (mark_settled u t now) db.next_id id db.reservations row sound.unique
        found s.id (ground (arith, row-IsHonest)))

  settled-other :
      (s : Scope)
      → eq_text s.id row.scope_id ≡ false
      → WithinLimits s db.reservations
      → WithinLimits s settled_rows
  unfolding settled_rows
  settled-other s other = WithinLimits-lighter s settled_rows db.reservations (
      NoHeavier-other (mark_settled u t now) db.next_id id db.reservations row sound.unique found
        s.id (rw (eq_text_sym row.scope_id s.id) other) refl)

  settled-blocked :
      (s : Scope)
      → WithinLimits s db.reservations
      → WithinLimits (record s { blocked = true }) settled_rows
  unfolding settled_rows
  settled-blocked s h = record {
    outstanding_ok = omega (
      arith,
      h.outstanding_ok,
      sum_by-le_of_row (mark_settled u t now) db.next_id id db.reservations row sound.unique found
          (outstanding s.id) (ground arith),
    );
    daily_ok = inl refl;
  }

  -- The scope that is found after an overrun, in terms of the scope that was found before.
  settled-overrun :
      (key : Text) (o : Option Scope) (s : Scope)
      → find_scope key db.scopes ≡ o
      → Option.map (λ x. if eq_text x.id row.scope_id then record x { blocked = true } else x) o
        ≡ some s
      → WithinLimits s settled_rows
  settled-overrun key none s f e = cc
  settled-overrun key (some old) s f e = elim (Bool-cases (eq_text old.id row.scope_id)) [
    | inl hit ↦
        let same : record old { blocked = true } ≡ s = ground arith in
        subst (λ x. WithinLimits x settled_rows) same (settled-blocked old (sound.within key old f))
    | inr miss ↦
        let same : old ≡ s = ground arith in
        subst (λ x. WithinLimits x settled_rows) same
          (settled-other old miss (sound.within key old f))
  ]

  settle_update-IsSound : IsSound (settle_update row id u t now db)
  unfolding settled_rows
  settle_update-IsSound = record {
    unique =
        Between-update_where 0 db.next_id (λ r. r.id == id) (mark_settled u t now) db.reservations
          (λ r. refl) sound.unique;
    honest =
        All-update_where IsHonest (λ r. r.id == id) (mark_settled u t now) db.reservations
          (λ r hit hon x. cc) sound.honest;
    within = λ key s e. elim (Bool-cases (ltb row.units u || ltb row.tokens t)) [
      | inl over ↦ settled-overrun key (find_scope key db.scopes) s refl (
          sym (
            find-update_where (λ x. eq_text x.id key) (λ x. eq_text x.id row.scope_id)
              (λ x. record x { blocked = true }) db.scopes (λ x. refl))
          ∙ rw over at e)
      | inr fits ↦
          settled-lighter s (ground arith) (ground arith) (sound.within key s (rw fits at e))
    ];
  }

settle_row-IsSound :
    (st : ReservationState) (row : Reservation) (id u t now : ℕ) (db db' : Ledger)
    → row.state ≡ st
    → find_reservation id db.reservations ≡ some row
    → settle_row st row id u t now db ≡ ok db'
    → IsSound db
    → IsSound db'
unfolding settle_row
settle_row-IsSound released row id u t now db db' st found e h = cc
settle_row-IsSound settled row id u t now db db' st found e h =
    let same : db ≡ db' = ground arith in subst IsSound same h
settle_row-IsSound reserved row id u t now db db' st found e h =
    let same : settle_update row id u t now db ≡ db' = cc in
    subst IsSound same (settle_update-IsSound db h row id u t now found (ground arith))
settle_row-IsSound unknown row id u t now db db' st found e h =
    let same : settle_update row id u t now db ≡ db' = cc in
    subst IsSound same (settle_update-IsSound db h row id u t now found (ground arith))

-- Settling keeps the ledger sound, an overrun of the reservation included.
pub settle-IsSound :
    (id : ℕ) (units tokens : Num) (now : ℕ) (db db' : Ledger)
    → settle id units tokens now db ≡ ok db'
    → IsSound db
    → IsSound db'
unfolding settle
settle-IsSound id units tokens now db db' e h =
    let (amounts, _, e1) = bind-eq-ok (assert_usage units tokens) _ e in
    let (row, found, e2) = bind-eq-ok (need (find_reservation id db.reservations) _) _ e1 in
    settle_row-IsSound row.state row id amounts.0 amounts.1 now db db' refl
      (need-eq-ok (find_reservation id db.reservations) _ found) e2 h
