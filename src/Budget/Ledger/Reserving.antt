-- ===== src/Budget/Ledger/Reserving.antt =====
-- `reserve` of packages/database/src/provider-budget.ts as its clients see it: soundness, retries,
-- conflicts, blocked scopes.
use mathlib.Core.Path.{subst}
use tech_p.Base.{
  ℕ, ◌+◌, ◌/◌, ◌≡◌, sym, true, false, Option, some, none, List, [], ◌∷◌, ◌++◌, ltb, length, arith,
  find, find_sound, find-append, inl, inr, Option-cases, Text, eq_text, eq_text_iff, eq_text_refl,
  ◌||◌, ok, bind-eq-ok, throw_if-eq-ok, need-eq-ok, throw_if, need, Num, Date, safe_nat, is_some,
  ap,
}
use tech_p.Budget.Ledger.{
  Ledger, Scope, LaneLimit, Reservation, BudgetError, find_scope, lane_limit, exceeds, same_request,
  fresh_reservation, day_ms, assert_usage, admit, reserve, approved_lane, valid_time, is_empty,
}
use tech_p.Budget.Ledger.Within.{IsSound}
use tech_p.Budget.Ledger.Admission
use tech_p.Budget.Ledger.Admission.{admitted-IsSound}

-- The search of `reserve` for an earlier reservation of the attempt.
abbrev pub find_attempt : Text → List Reservation → Option Reservation
find_attempt attempt_id rows = find (λ r. eq_text r.attempt_id attempt_id) rows

-- What `reserve` has read and tested when it succeeds.
pub record Passed (scope_id attempt_id lane : Text) (units tokens : Num) (now : Date) (db : Ledger)
    (r : Reservation) (db' : Ledger) : Type 0 where
  pub u : ℕ
  pub t : ℕ
  pub ms : ℕ
  pub scope : Scope
  pub limit : LaneLimit
  pub amounts : assert_usage units tokens ≡ ok (u, t)
  pub named : is_empty attempt_id || ltb 256 (length attempt_id) ≡ false
  pub timed : valid_time now ≡ some ms
  pub known : find_scope scope_id db.scopes ≡ some scope
  pub offered : lane_limit lane scope.lane_limits ≡ some limit
  pub approved : approved_lane (some scope) lane ≡ ok (scope, limit)
  pub admitted :
      admit (find_attempt attempt_id db.reservations) scope_id scope limit attempt_id lane u t ms db
      ≡ ok (r, db')

-- The scope and the limit that `approved_lane` hands on.
approved_lane-eq-ok :
    (o : Option Scope) (lane : Text) (s : Scope) (limit : LaneLimit)
    → approved_lane o lane ≡ ok (s, limit)
    → (o ≡ some s)
      × (lane_limit lane s.lane_limits ≡ some limit)
      × (approved_lane (some s) lane ≡ ok (s, limit))
unfolding approved_lane
approved_lane-eq-ok none lane s limit h = cc
approved_lane-eq-ok (some x) lane s limit h = ground arith

pub reserve-Passed :
    (scope_id attempt_id lane : Text) (units tokens : Num) (now : Date) (db : Ledger)
    (r : Reservation) (db' : Ledger)
    → reserve scope_id attempt_id lane units tokens now db ≡ ok (r, db')
    → Passed scope_id attempt_id lane units tokens now db r db'
unfolding reserve
reserve-Passed scope_id attempt_id lane units tokens now db r db' e =
    let (amounts, e0, f0) = bind-eq-ok (assert_usage units tokens) _ e in
    let (_, e1, f1) =
      bind-eq-ok (throw_if (is_empty attempt_id || ltb 256 (length attempt_id)) _) _ f0 in
    let (ms, e2, f2) = bind-eq-ok (need (valid_time now) _) _ f1 in
    let (found, e3, f3) = bind-eq-ok (approved_lane (find_scope scope_id db.scopes) lane) _ f2 in
    let (known, offered, approved) =
      approved_lane-eq-ok (find_scope scope_id db.scopes) lane found.0 found.1 e3 in
    record {
      u = amounts.0;
      t = amounts.1;
      ms = ms;
      scope = found.0;
      limit = found.1;
      amounts = e0;
      named = throw_if-eq-ok (is_empty attempt_id || ltb 256 (length attempt_id)) _ e1;
      timed = need-eq-ok (valid_time now) _ e2;
      known = known;
      offered = offered;
      approved = approved;
      admitted = f3;
    }

abbrev pub insert_row : Reservation → Ledger → Ledger
insert_row row db = record db {
  reservations = db.reservations ++ row ∷ [];
  next_id = db.next_id + 1;
}

-- A new reservation: the scope was open, the limits had room, and one row is added.
pub admit_new :
    (scope_id : Text) (s : Scope) (limit : LaneLimit) (attempt_id lane : Text) (u t now : ℕ)
    (db : Ledger) (r : Reservation) (db' : Ledger)
    → admit none scope_id s limit attempt_id lane u t now db ≡ ok (r, db')
    → (s.blocked ≡ false)
      × (exceeds scope_id s limit lane (now / day_ms) u t db.reservations ≡ false)
      × (fresh_reservation db.next_id scope_id attempt_id lane u t now ≡ r)
      × (insert_row (fresh_reservation db.next_id scope_id attempt_id lane u t now) db ≡ db')
unfolding admit
admit_new scope_id s limit attempt_id lane u t now db r db' e =
    let full = exceeds scope_id s limit lane (now / day_ms) u t db.reservations in
    let (_, e1, f1) = bind-eq-ok (throw_if s.blocked _) _ e in
    let (_, e2, f2) = bind-eq-ok (throw_if full _) _ f1 in
    (throw_if-eq-ok s.blocked _ e1, throw_if-eq-ok full _ e2, cc, cc)

admit-IsSound :
    (o : Option Reservation) (scope_id : Text) (s : Scope) (limit : LaneLimit)
    (attempt_id lane : Text) (u t now : ℕ) (db : Ledger) (r : Reservation) (db' : Ledger)
    → find_scope scope_id db.scopes ≡ some s
    → lane_limit lane s.lane_limits ≡ some limit
    → admit o scope_id s limit attempt_id lane u t now db ≡ ok (r, db')
    → IsSound db
    → IsSound db'
unfolding admit Admission.rows Admission.row
admit-IsSound (some x) scope_id s limit attempt_id lane u t now db r db' known offered e h =
    let same : db ≡ db' = ground arith in subst IsSound same h
admit-IsSound none scope_id s limit attempt_id lane u t now db r db' known offered e h =
    let (open_scope, fits, _, same) =
      admit_new scope_id s limit attempt_id lane u t now db r db' e in
    let key : scope_id ≡ s.id =
      sym (
        (eq_text_iff s.id scope_id).0
          (find_sound (λ x. eq_text x.id scope_id) db.scopes s known)) in
    let sound =
      admitted-IsSound db h s limit attempt_id lane u t now
        (subst (λ k. find_scope k db.scopes ≡ some s) key known) offered open_scope
        (subst (λ k. exceeds k s limit lane (now / day_ms) u t db.reservations ≡ false) key fits) in
    subst IsSound same (
      subst (λ k. IsSound (insert_row (fresh_reservation db.next_id k attempt_id lane u t now) db))
        (sym key) sound)

-- A reservation that is let in keeps the ledger sound.
pub reserve-IsSound :
    (scope_id attempt_id lane : Text) (units tokens : Num) (now : Date) (db : Ledger)
    (r : Reservation) (db' : Ledger)
    → reserve scope_id attempt_id lane units tokens now db ≡ ok (r, db')
    → IsSound db
    → IsSound db'
reserve-IsSound scope_id attempt_id lane units tokens now db r db' e h =
    let p = reserve-Passed scope_id attempt_id lane units tokens now db r db' e in
    admit-IsSound (find_attempt attempt_id db.reservations) scope_id p.scope p.limit attempt_id lane
      p.u p.t p.ms db r db' p.known p.offered p.admitted h

-- What the admission leaves: the row under the name of the attempt, and the scopes as they were.
pub admit_result :
    (scope_id : Text) (s : Scope) (limit : LaneLimit) (attempt_id lane : Text) (u t now : ℕ)
    (db : Ledger) (r : Reservation) (db' : Ledger)
    → admit (find_attempt attempt_id db.reservations) scope_id s limit attempt_id lane u t now db
      ≡ ok (r, db')
    → (find_attempt attempt_id db'.reservations ≡ some r)
      × (same_request r scope_id lane u t ≡ true)
      × (db'.scopes ≡ db.scopes)
unfolding admit
admit_result scope_id s limit attempt_id lane u t now db r db' e =
    elim (Option-cases (find_attempt attempt_id db.reservations)) [
      | inl new ↦
          let row = fresh_reservation db.next_id scope_id attempt_id lane u t now in
          let (_, _, same_row, same) =
            admit_new scope_id s limit attempt_id lane u t now db r db' (rw new at e) in
          (
            cc (
              same_row,
              same,
              find-append (λ x. eq_text x.attempt_id attempt_id) db.reservations row new
                  (eq_text_refl attempt_id),
            ),
            ground (arith, same_row, eq_text_refl scope_id, eq_text_refl lane),
            cc same,
          )
      | inr (x, old) ↦
          let e' : admit (some x) scope_id s limit attempt_id lane u t now db ≡ ok (r, db') =
            rw old at e in
          (ground arith, ground arith, ground arith)
    ]

assert_usage-safe :
    (units tokens : Num) (a : ℕ × ℕ)
    → assert_usage units tokens ≡ ok a
    → is_some (safe_nat units) ≡ true
unfolding assert_usage
assert_usage-safe units tokens a e =
    let (u, f, _) = bind-eq-ok (need (safe_nat units) BudgetError.invalid_usage) _ e in
    ap is_some (need-eq-ok (safe_nat units) BudgetError.invalid_usage f)

-- What is reserved is a number.
pub reserve-safe :
    (scope_id attempt_id lane : Text) (units tokens : Num) (now : Date) (db : Ledger)
    (r : Reservation) (db' : Ledger)
    → reserve scope_id attempt_id lane units tokens now db ≡ ok (r, db')
    → is_some (safe_nat units) ≡ true
reserve-safe scope_id attempt_id lane units tokens now db r db' e =
    let p = reserve-Passed scope_id attempt_id lane units tokens now db r db' e in
    assert_usage-safe units tokens (p.u, p.t) p.amounts
