-- ===== src/Budget/Ledger/Retries.antt =====
-- Repeated and late calls of packages/database/src/provider-budget.ts.
use mathlib.Core.Path.{subst}
use mathlib.Core.Option
use tech_p.Base.{
  ℕ, ◌<◌, ◌≡◌, ◌≢◌, refl, sym, ◌∙◌, ap, true, false, some, none, List, if◌then◌else◌, ltb, length,
  arith, find_sound, find-update_where, ◌⊎◌, update_where, Text, eq_text, ◌||◌, ok, bind-eq-ok,
  need-eq-ok, need, Num, nat, Date, all, not, throw_if, ok_injective, ◌>>=◌, ◌>>◌, Bool, Bool-cases,
  inl, inr, Result,
}
use tech_p.Budget.Ledger.{
  Ledger, Scope, LaneLimit, Reservation, ReservationState, reserved, settled, unknown, released,
  find_scope, settle, settle_row, find_reservation, same_request, is_outstanding, assert_usage,
  admit, reserve, approved_lane, lane_limit, valid_time, is_empty, BudgetError,
}
use tech_p.Budget.Ledger.Evolving.{IsBlocked}
use tech_p.Budget.Ledger.Traces.{Call, is_spending, run, run-Evolves, run-IsBlocked}
use tech_p.Budget.Ledger.Reserving.{reserve-Passed, find_attempt, admit_result, admit_new}

-- `reserve` once its tests have passed.
reserve-eq-admit :
    (scope_id attempt_id lane : Text) (units tokens : Num) (now : Date) (db : Ledger) (u t ms : ℕ)
    (s : Scope) (limit : LaneLimit)
    → assert_usage units tokens ≡ ok (u, t)
    → is_empty attempt_id || ltb 256 (length attempt_id) ≡ false
    → valid_time now ≡ some ms
    → find_scope scope_id db.scopes ≡ some s
    → approved_lane (some s) lane ≡ ok (s, limit)
    → reserve scope_id attempt_id lane units tokens now db
      ≡ admit (find_attempt attempt_id db.reservations) scope_id s limit attempt_id lane u t ms db
unfolding reserve
reserve-eq-admit scope_id attempt_id lane units tokens now db u t ms s limit a b c d e =
    rw (a, b, c, d, e)

admit_again :
    (r : Reservation) (scope_id : Text) (s : Scope) (limit : LaneLimit) (attempt_id lane : Text)
    (u t ms : ℕ) (db : Ledger)
    → same_request r scope_id lane u t ≡ true
    → admit (some r) scope_id s limit attempt_id lane u t ms db ≡ ok (r, db)
unfolding admit
admit_again r scope_id s limit attempt_id lane u t ms db h = rw h

-- The tests of a lane, of the approval and the limits of a scope.
abbrev lane_of : Bool → List (Text × LaneLimit) → Text → Result BudgetError LaneLimit
lane_of approved limits lane = do
  throw_if (not approved) BudgetError.approval_required
  need (lane_limit lane limits) BudgetError.approval_required

approved_lane-lane_of :
    (s : Scope) (lane : Text)
    → approved_lane (some s) lane
      ≡ (lane_of s.approved s.lane_limits lane >>= λ limit. ok (s, limit))
unfolding approved_lane
approved_lane-lane_of s lane = elim (Bool-cases s.approved) [
  | inl approves ↦ rw approves refl
  | inr refuses ↦ rw refuses refl
]

-- A lane that is approved is so in a scope with the same approval and limits.
approved_lane-same :
    (s s' : Scope) (lane : Text) (limit : LaneLimit)
    → approved_lane (some s) lane ≡ ok (s, limit)
    → s'.approved ≡ s.approved
    → s'.lane_limits ≡ s.lane_limits
    → approved_lane (some s') lane ≡ ok (s', limit)
approved_lane-same s s' lane limit e same limits =
    let (l, e1, e2) =
      bind-eq-ok (lane_of s.approved s.lane_limits lane) _
        (sym (approved_lane-lane_of s lane) ∙ e) in
    let this : l ≡ limit = ap (λ (x : Scope × LaneLimit). x.1) (ok_injective e2) in
    let moved : lane_of s'.approved s'.lane_limits lane ≡ ok limit =
      ap (λ b. lane_of b s'.lane_limits lane) same
      ∙ (ap (λ ls. lane_of s.approved ls lane) limits ∙ (e1 ∙ ap ok this)) in
    approved_lane-lane_of s' lane ∙ ap (λ m. m >>= λ x. ok (s', x)) moved

-- Repeating a reservation that was granted, at any later time and after any reservations, settlements, holds
-- and releases in between, whatever they have made of it, returns the same reservation for the same amounts
-- and changes nothing: a retried attempt is charged once.
pub reserve_retry :
    (scope_id attempt_id lane : Text) (units tokens : Num) (now later : Date) (ms : ℕ) (db : Ledger)
    (r : Reservation) (db' : Ledger) (cs : List Call)
    → reserve scope_id attempt_id lane units tokens now db ≡ ok (r, db')
    → valid_time later ≡ some ms
    → all is_spending cs ≡ true
    → (r' : Reservation) × (reserve scope_id attempt_id lane units tokens later (run cs db')
        ≡ ok (r', run cs db'))
      × (r'.id ≡ r.id)
      × (r'.attempt_id ≡ r.attempt_id)
      × (r'.scope_id ≡ r.scope_id)
      × (r'.lane ≡ r.lane)
      × (r'.units ≡ r.units)
      × (r'.tokens ≡ r.tokens)
reserve_retry scope_id attempt_id lane units tokens now later ms db r db' cs e time spend =
    let p = reserve-Passed scope_id attempt_id lane units tokens now db r db' e in
    let (found, same, scopes) =
      admit_result scope_id p.scope p.limit attempt_id lane p.u p.t p.ms db r db' p.admitted in
    let end = run cs db' in
    let evolves = run-Evolves cs db' spend in
    let (r', found', (id, attempt, in_scope, in_lane, units', tokens')) =
      evolves.rows attempt_id r found in
    let (s', known', (approval, limits, _)) =
      evolves.scopes scope_id p.scope (ap (find_scope scope_id) scopes ∙ p.known) in
    let asked : same_request r' scope_id lane p.u p.t ≡ true =
      rw (in_scope, in_lane, units', tokens') same in
    (
      r',
      reserve-eq-admit scope_id attempt_id lane units tokens later end p.u p.t ms s' p.limit
            p.amounts p.named time known'
            (approved_lane-same p.scope s' lane p.limit p.approved approval limits)
          ∙ (ap (λ o. admit o scope_id s' p.limit attempt_id lane p.u p.t ms end) found'
              ∙ admit_again r' scope_id s' p.limit attempt_id lane p.u p.t ms end asked),
      id,
      attempt,
      in_scope,
      in_lane,
      units',
      tokens',
    )

-- A scope that is there is blocked by an overrun.
block-IsBlocked :
    (key : Text) (scopes : List Scope) (s : Scope)
    → find_scope key scopes ≡ some s
    → IsBlocked key (update_where (λ x. eq_text x.id key) (λ x. record x { blocked = true }) scopes)
block-IsBlocked key scopes s f =
    let hit : eq_text s.id key ≡ true = find_sound (λ (y : Scope). eq_text y.id key) scopes s f in
    let law =
      find-update_where (λ (x : Scope). eq_text x.id key) (λ x. eq_text x.id key)
        (λ x. record x { blocked = true }) scopes (λ x. refl) in
    (
      record s { blocked = true },
      law
          ∙ (ap
                (Option.map
                  (λ (x : Scope). if eq_text x.id key then record x { blocked = true } else x))
                f
              ∙ rw hit refl),
      refl,
    )

settle_row_over :
    (st : ReservationState) (row : Reservation) (id u t now : ℕ) (db db' : Ledger)
    → is_outstanding st ≡ true
    → (row.units < u) ⊎ (row.tokens < t)
    → settle_row st row id u t now db ≡ ok db'
    → update_where (λ x. eq_text x.id row.scope_id) (λ x. record x { blocked = true }) db.scopes
      ≡ db'.scopes
unfolding settle_row
settle_row_over reserved row id u t now db db' out over e = ground arith
settle_row_over unknown row id u t now db db' out over e = ground arith
settle_row_over settled row id u t now db db' out over e = cc
settle_row_over released row id u t now db db' out over e = cc

assert_usage-nat :
    (u t : ℕ) (a : ℕ × ℕ) → assert_usage (nat u) (nat t) ≡ ok a → (u ≡ a.0) × (t ≡ a.1)
unfolding assert_usage
assert_usage-nat u t a h = ground arith

settle_known :
    (id u t now : ℕ) (db db' : Ledger) (row : Reservation)
    → find_reservation id db.reservations ≡ some row
    → settle id (nat u) (nat t) now db ≡ ok db'
    → settle_row row.state row id u t now db ≡ ok db'
unfolding settle
settle_known id u t now db db' row found e =
    let (a, e0, e1) = bind-eq-ok (assert_usage (nat u) (nat t)) _ e in
    let (row', found', e2) = bind-eq-ok (need (find_reservation id db.reservations) _) _ e1 in
    let same : row ≡ row' = cc (need-eq-ok (find_reservation id db.reservations) _ found') in
    let (same_u, same_t) = assert_usage-nat u t a e0 in
    cc (
      e2,
      ap (λ (x : ℕ × ℕ). settle_row row.state row id x.0 x.1 now db)
          (let p : ◌≡◌ {A = ℕ × ℕ} (u, t) a = cc in p),
    )

-- A reservation that settles above its units or its tokens blocks its scope, if that is in the table: from then on, whatever calls are
-- made, configuring the scope included, no attempt that has no reservation yet gets one there, whatever it
-- asks for.
pub overrun_blocks :
    (id u t now : ℕ) (db db' : Ledger) (row : Reservation) (s : Scope) (cs : List Call)
    (attempt_id lane : Text) (units tokens : Num) (later : Date) (r : Reservation) (db2 : Ledger)
    → find_reservation id db.reservations ≡ some row
    → find_scope row.scope_id db.scopes ≡ some s
    → is_outstanding row.state ≡ true
    → (row.units < u) ⊎ (row.tokens < t)
    → settle id (nat u) (nat t) now db ≡ ok db'
    → find_attempt attempt_id (run cs db').reservations ≡ none
    → reserve row.scope_id attempt_id lane units tokens later (run cs db') ≢ ok (r, db2)
overrun_blocks id u t now db db' row s cs attempt_id lane units tokens later r db2 found there out
      over e unseen f =
    let end = run cs db' in
    let p = reserve-Passed row.scope_id attempt_id lane units tokens later end r db2 f in
    let (open_scope, _, _, _) =
      admit_new row.scope_id p.scope p.limit attempt_id lane p.u p.t p.ms end r db2
        (rw unseen at p.admitted) in
    let scopes =
      settle_row_over row.state row id u t now db db' out over
        (settle_known id u t now db db' row found e) in
    let blocked =
      subst (IsBlocked row.scope_id) scopes (block-IsBlocked row.scope_id db.scopes s there) in
    let (s', known, closed) = run-IsBlocked row.scope_id cs db' blocked in
    let this : s' ≡ p.scope = cc (known, p.known) in
    let clash : true ≡ false = sym closed ∙ (ap (λ (x : Scope). x.blocked) this ∙ open_scope) in
    absurd cc
