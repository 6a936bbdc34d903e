-- ===== src/Budget/Ledger/Evolving.antt =====
-- What the spending calls of packages/database/src/provider-budget.ts leave as it is: a row keeps what was asked
-- for, a scope its approval and limits; and a scope that is blocked stays blocked, configuring it included.
use mathlib.Core.Path.{subst}
use mathlib.Core.Option
use tech_p.Base.{
  ℕ, ◌≡◌, refl, sym, ◌∙◌, ap, Bool, true, false, not, ◌&&◌, ◌||◌, Option, some, none, List, [], ◌∷◌,
  if◌then◌else◌, ltb, ◌==◌, all, arith, find, find-update_where, find-append_old, update_where,
  Bool-cases, Option-cases, inl, inr, Text, eq_text, eq_text_sound, Num, Date, nat, ok, bind-eq-ok,
  throw_if, need, ok_injective,
}
use tech_p.Budget.Ledger.{
  Ledger, Scope, Reservation, ReservationState, reserved, settled, unknown, released, WorkState,
  find_scope, find_reservation, assert_usage, admit, reserve, settle, settle_row, settle_update,
  mark_settled, mark_unknown, mark_released, is_reserved, hold_unknown, release_unsent, release_row,
  may_have_called, is_empty, invalid_usage, reservation_conflict,
}
use tech_p.Budget.Ledger.Reserving.{reserve-Passed, find_attempt, admit_new}
use tech_p.Budget.Ledger.Configuring.{
  ScopeInput, overwrite_scope, store_scope, configure_scope, check_lanes, is_currency, is_sha256,
}

-- The same reservation: what was asked for, whatever has become of it.
abbrev pub SameRow : Reservation → Reservation → Type 0
SameRow x y =
    (y.id ≡ x.id)
    × (y.attempt_id ≡ x.attempt_id)
    × (y.scope_id ≡ x.scope_id)
    × (y.lane ≡ x.lane)
    × (y.units ≡ x.units)
    × (y.tokens ≡ x.tokens)

-- The same scope but for its block, which stays.
abbrev pub SameScope : Scope → Scope → Type 0
SameScope x y =
    (y.approved ≡ x.approved)
    × (y.lane_limits ≡ x.lane_limits)
    × (x.blocked ≡ true → y.blocked ≡ true)

abbrev pub RowsStay : List Reservation → List Reservation → Type 0
RowsStay xs ys =
    (a : Text) (x : Reservation)
    → find_attempt a xs ≡ some x
    → (y : Reservation) × (find_attempt a ys ≡ some y) × SameRow x y

abbrev pub ScopesStay : List Scope → List Scope → Type 0
ScopesStay xs ys =
    (k : Text) (x : Scope)
    → find_scope k xs ≡ some x
    → (y : Scope) × (find_scope k ys ≡ some y) × SameScope x y

pub record Evolves (db db' : Ledger) : Type 0 where
  pub rows : RowsStay db.reservations db'.reservations
  pub scopes : ScopesStay db.scopes db'.scopes

RowsStay-same : (xs : List Reservation) → RowsStay xs xs
RowsStay-same xs a x e = (x, e, (refl, refl, refl, refl, refl, refl))

ScopesStay-same : (xs : List Scope) → ScopesStay xs xs
ScopesStay-same xs k x e = (x, e, (refl, refl, λ h. h))

pub Evolves-same : (db : Ledger) → Evolves db db
Evolves-same db = record {
  rows = RowsStay-same db.reservations;
  scopes = ScopesStay-same db.scopes;
}

Evolves-of_same : (db db' : Ledger) → db ≡ db' → Evolves db db'
Evolves-of_same db db' e = subst (Evolves db) e (Evolves-same db)

SameRow-trans : (x y z : Reservation) → SameRow x y → SameRow y z → SameRow x z
SameRow-trans x y z (a, b, c, d, e, f) (a', b', c', d', e', f') =
    (a' ∙ a, b' ∙ b, c' ∙ c, d' ∙ d, e' ∙ e, f' ∙ f)

pub Evolves-trans : (a b c : Ledger) → Evolves a b → Evolves b c → Evolves a c
Evolves-trans a b c f g = record {
  rows = λ k x e.
      let (y, e1, s) = f.rows k x e in
      let (z, e2, t) = g.rows k y e1 in (z, e2, SameRow-trans x y z s t);
  scopes = λ k x e.
      let (y, e1, (p, l, h)) = f.scopes k x e in
      let (z, e2, (p', l', h')) = g.scopes k y e1 in (z, e2, (p' ∙ p, l' ∙ l, λ b. h' (h b)));
}

-- An update of some rows that keeps what was asked for.
RowsStay-update :
    (q : Reservation → Bool) (g : Reservation → Reservation) (xs : List Reservation)
    → ((x : Reservation) → SameRow x (g x))
    → RowsStay xs (update_where q g xs)
RowsStay-update q g xs same a x e =
    let law =
      find-update_where (λ (r : Reservation). eq_text r.attempt_id a) q g xs
        (λ r. ap (λ t. eq_text t a) (same r).1) in
    (change x, law ∙ ap (Option.map change) e, changed x)
  where
    change : Reservation → Reservation
    change r = if q r then g r else r

    changed : (r : Reservation) → SameRow r (change r)
    changed r = elim (Bool-cases (q r)) [
      | inl hit ↦ rw hit (same r)
      | inr miss ↦ rw miss (refl, refl, refl, refl, refl, refl)
    ]

-- A block of some scope.
abbrev block : Text → List Scope → List Scope
block id scopes = update_where (λ s. eq_text s.id id) (λ s. record s { blocked = true }) scopes

ScopesStay-block : (id : Text) (xs : List Scope) → ScopesStay xs (block id xs)
ScopesStay-block id xs k x e =
    let law =
      find-update_where (λ (s : Scope). eq_text s.id k) (λ s. eq_text s.id id)
        (λ s. record s { blocked = true }) xs (λ s. refl) in
    (change x, law ∙ ap (Option.map change) e, changed x)
  where
    change : Scope → Scope
    change s = if eq_text s.id id then record s { blocked = true } else s

    changed : (s : Scope) → SameScope s (change s)
    changed s = elim (Bool-cases (eq_text s.id id)) [
      | inl hit ↦ rw hit (refl, refl, λ h. refl)
      | inr miss ↦ rw miss (refl, refl, λ h. h)
    ]

pub reserve-Evolves :
    (scope_id attempt_id lane : Text) (units tokens : Num) (now : Date) (db : Ledger)
    (r : Reservation) (db' : Ledger)
    → reserve scope_id attempt_id lane units tokens now db ≡ ok (r, db')
    → Evolves db db'
unfolding admit
reserve-Evolves scope_id attempt_id lane units tokens now db r db' e =
    let p = reserve-Passed scope_id attempt_id lane units tokens now db r db' e in
    elim (Option-cases (find_attempt attempt_id db.reservations)) [
      | inl new ↦
          let (_, _, _, same) =
            admit_new scope_id p.scope p.limit attempt_id lane p.u p.t p.ms db r db'
              (rw new at p.admitted) in
          subst (Evolves db) same (record {
            rows = λ a x f. (
              x,
              find-append_old (λ (y : Reservation). eq_text y.attempt_id a) db.reservations _ x f,
              (refl, refl, refl, refl, refl, refl),
            );
            scopes = ScopesStay-same db.scopes;
          })
      | inr (x, old) ↦
          let admitted : admit (some x) scope_id p.scope p.limit attempt_id lane p.u p.t p.ms db
              ≡ ok (r, db') =
            rw old at p.admitted in
          Evolves-of_same db db' (ground arith)
    ]

settle_update-Evolves :
    (row : Reservation) (id u t now : ℕ) (db : Ledger)
    → Evolves db (settle_update row id u t now db)
settle_update-Evolves row id u t now db = record {
  rows =
      RowsStay-update (λ r. r.id == id) (mark_settled u t now) db.reservations
        (λ r. (refl, refl, refl, refl, refl, refl));
  scopes = elim (Bool-cases (ltb row.units u || ltb row.tokens t)) [
    | inl over ↦ rw over (ScopesStay-block row.scope_id db.scopes)
    | inr fits ↦ rw fits (ScopesStay-same db.scopes)
  ];
}

settle_row-Evolves :
    (st : ReservationState) (row : Reservation) (id u t now : ℕ) (db db' : Ledger)
    → settle_row st row id u t now db ≡ ok db'
    → Evolves db db'
unfolding settle_row
settle_row-Evolves released row id u t now db db' e = absurd cc
settle_row-Evolves settled row id u t now db db' e = Evolves-of_same db db' (ground arith)
settle_row-Evolves reserved row id u t now db db' e =
    subst (Evolves db) (ok_injective e) (settle_update-Evolves row id u t now db)
settle_row-Evolves unknown row id u t now db db' e =
    subst (Evolves db) (ok_injective e) (settle_update-Evolves row id u t now db)

pub settle-Evolves :
    (id : ℕ) (units tokens : Num) (now : ℕ) (db db' : Ledger)
    → settle id units tokens now db ≡ ok db'
    → Evolves db db'
unfolding settle
settle-Evolves id units tokens now db db' e =
    let ((u, t), _, e1) = bind-eq-ok (assert_usage units tokens) _ e in
    let (row, _, e2) = bind-eq-ok (need (find_reservation id db.reservations) _) _ e1 in
    settle_row-Evolves row.state row id u t now db db' e2

pub hold_unknown-Evolves : (id now : ℕ) (db : Ledger) → Evolves db (hold_unknown id now db)
unfolding hold_unknown
hold_unknown-Evolves id now db = record {
  rows =
      RowsStay-update (λ r. r.id == id && is_reserved r.state) (mark_unknown now) db.reservations
        (λ r. (refl, refl, refl, refl, refl, refl));
  scopes = ScopesStay-same db.scopes;
}

release_row-Evolves :
    (st : ReservationState) (work : Option WorkState) (id now : ℕ) (db db' : Ledger)
    → release_row st work id now db ≡ ok db'
    → Evolves db db'
unfolding release_row
release_row-Evolves released work id now db db' e = Evolves-of_same db db' (ok_injective e)
release_row-Evolves settled work id now db db' e = absurd cc
release_row-Evolves unknown work id now db db' e = absurd cc
release_row-Evolves reserved work id now db db' e =
    let (_, _, e1) = bind-eq-ok (throw_if (may_have_called work) _) _ e in
    subst (Evolves db) (ok_injective e1) (record {
      rows =
          RowsStay-update (λ r. r.id == id) (mark_released now) db.reservations
            (λ r. (refl, refl, refl, refl, refl, refl));
      scopes = ScopesStay-same db.scopes;
    })

pub release_unsent-Evolves :
    (id : ℕ) (work : Option WorkState) (now : ℕ) (db db' : Ledger)
    → release_unsent id work now db ≡ ok db'
    → Evolves db db'
unfolding release_unsent
release_unsent-Evolves id work now db db' e =
    let (row, _, e1) = bind-eq-ok (need (find_reservation id db.reservations) _) _ e in
    release_row-Evolves row.state work id now db db' e1

-- A scope that is there and blocked.
abbrev pub IsBlocked : Text → List Scope → Type 0
IsBlocked k scopes = (s : Scope) × (find_scope k scopes ≡ some s) × (s.blocked ≡ true)

overwrite-IsBlocked :
    (k : Text) (new : Scope) (scopes : List Scope)
    → IsBlocked k scopes
    → IsBlocked k (update_where (λ s. eq_text s.id new.id) (overwrite_scope new) scopes)
unfolding find update_where
overwrite-IsBlocked k new [] (s, e, h) = absurd cc
overwrite-IsBlocked k new (x ∷ xs) (s, e, h) = elim (Bool-cases (eq_text x.id new.id)) [
  | inl hit ↦
      let ids = ap (λ t. eq_text t k) (eq_text_sound x.id new.id hit) in
      elim (Bool-cases (eq_text x.id k)) [
        | inl here ↦
            let this : x ≡ s = ground arith in
            let named : eq_text new.id k ≡ true = sym ids ∙ here in
            (overwrite_scope new x, rw (hit, named) refl, ap (λ (y : Scope). y.blocked) this ∙ h)
        | inr there ↦
            let other : eq_text new.id k ≡ false = sym ids ∙ there in
            let (y, f, b) = overwrite-IsBlocked k new xs (s, rw there at e, h) in
            (y, rw (hit, other) f, b)
      ]
  | inr miss ↦ elim (Bool-cases (eq_text x.id k)) [
    | inl here ↦
        let this : x ≡ s = ground arith in
        (x, rw (miss, here) refl, ap (λ (y : Scope). y.blocked) this ∙ h)
    | inr there ↦
        let (y, f, b) = overwrite-IsBlocked k new xs (s, rw there at e, h) in
        (y, rw (miss, there) f, b)
  ]
]

store_scope-IsBlocked :
    (k : Text) (o : Option Scope) (new : Scope) (scopes scopes' : List Scope)
    → store_scope o new scopes ≡ ok scopes'
    → IsBlocked k scopes
    → IsBlocked k scopes'
unfolding store_scope
store_scope-IsBlocked k none new scopes scopes' e (s, f, h) =
    subst (IsBlocked k) (ok_injective e)
      (s, find-append_old (λ (x : Scope). eq_text x.id k) scopes _ s f, h)
store_scope-IsBlocked k (some existing) new scopes scopes' e b =
    let (_, _, e1) =
      bind-eq-ok (throw_if (not (eq_text existing.currency new.currency)) reservation_conflict) _
        e in
    subst (IsBlocked k) (ok_injective e1) (overwrite-IsBlocked k new scopes b)

pub configure_scope-IsBlocked :
    (k : Text) (input : ScopeInput) (db db' : Ledger)
    → configure_scope input db ≡ ok db'
    → IsBlocked k db.scopes
    → IsBlocked k db'.scopes
unfolding configure_scope
configure_scope-IsBlocked k input db db' e b =
    let ((u, t), _, e1) =
      bind-eq-ok (assert_usage input.max_daily_units input.max_daily_tokens) _ e in
    let ((o, _), _, e2) = bind-eq-ok (assert_usage input.max_outstanding_units (nat 0)) _ e1 in
    let (_, _, e3) =
      bind-eq-ok (throw_if (not (is_currency input.currency) || is_empty input.id) invalid_usage) _
        e2 in
    let (lanes, _, e4) = bind-eq-ok (check_lanes input.lane_limits) _ e3 in
    let (_, _, e5) =
      bind-eq-ok (throw_if (not (all is_sha256 input.approved_model_profiles)) invalid_usage) _
        e4 in
    let new : Scope = record {
      id = input.id;
      approved = input.approved;
      currency = input.currency;
      max_daily_units = u;
      max_outstanding_units = o;
      max_daily_tokens = t;
      lane_limits = lanes;
      approved_model_profiles = input.approved_model_profiles;
      blocked = false;
    } in
    let (scopes, stored, e6) =
      bind-eq-ok (store_scope (find_scope input.id db.scopes) new db.scopes) _ e5 in
    subst (λ (d : Ledger). IsBlocked k d.scopes) (ok_injective e6)
      (store_scope-IsBlocked k (find_scope input.id db.scopes) new db.scopes scopes stored b)
