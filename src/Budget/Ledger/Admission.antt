-- ===== src/Budget/Ledger/Admission.antt =====
-- `reserve` of packages/database/src/provider-budget.ts: what is let in, and what a retry does.
use mathlib.Core.Path.{subst}
use tech_p.Base.{
  ℕ, ◌+◌, ◌/◌, ◌≡◌, refl, sym, ◌∙◌, ap, false, some, List, [], ◌∷◌, ◌++◌, arith, All-append, sum_by,
  sum_by-append, find_sound, inl, inr, Bool-cases, Text, eq_text, eq_text_iff,
}
use tech_p.Budget.Ledger.{
  Ledger, Scope, LaneLimit, Reservation, find_scope, lane_limit, day_units, day_tokens, lane_units,
  lane_tokens, outstanding, exceeds, fresh_reservation, day_ms,
}
use tech_p.Budget.Ledger.Rows.{Between-append}
use tech_p.Budget.Ledger.Within.{IsSound, WithinLimits, DayWithin, IsHonest}

module _ (db : Ledger) (sound : IsSound db) (scope : Scope) (limit : LaneLimit)
    (attempt_id lane : Text) (u t now : ℕ) (known : find_scope scope.id db.scopes ≡ some scope)
    (offered : lane_limit lane scope.lane_limits ≡ some limit) (open_scope : scope.blocked ≡ false)
    (fits : exceeds scope.id scope limit lane (now / day_ms) u t db.reservations ≡ false) where
  unfoldable pub row : Reservation
  row = fresh_reservation db.next_id scope.id attempt_id lane u t now

  unfoldable pub rows : List Reservation
  unfolding row
  rows = db.reservations ++ row ∷ []

  -- The five sums grow by the weight of the new row.
  sum_by-rows : (f : Reservation → ℕ) → sum_by f rows ≡ sum_by f db.reservations + f row
  unfolding rows sum_by
  sum_by-rows f = omega (arith, sum_by-append f db.reservations (row ∷ []))

  day-admitted : (day : ℕ) → DayWithin scope db.reservations day → DayWithin scope rows day
  unfolding exceeds row
  day-admitted day h = record {
    units_ok = ground (arith, sum_by-rows (day_units scope.id day), h.units_ok, fits);
    tokens_ok = ground (arith, sum_by-rows (day_tokens scope.id day), h.tokens_ok, fits);
    lanes_ok = λ name lim e. elim (Bool-cases (eq_text lane name)) [
      | inl this ↦
          let same_name : lane ≡ name = (eq_text_iff lane name).0 this in
          (
            ground (
              arith,
              same_name,
              offered,
              e,
              sum_by-rows (lane_units scope.id name day),
              h.lanes_ok name lim e,
              fits,
            ),
            ground (
              arith,
              same_name,
              offered,
              e,
              sum_by-rows (lane_tokens scope.id name day),
              h.lanes_ok name lim e,
              fits,
            ),
          )
      | inr other ↦ (
        ground (arith, other, sum_by-rows (lane_units scope.id name day), h.lanes_ok name lim e),
        ground (arith, other, sum_by-rows (lane_tokens scope.id name day), h.lanes_ok name lim e),
      )
    ];
  }

  own-admitted : WithinLimits scope db.reservations → WithinLimits scope rows
  unfolding exceeds row
  own-admitted h = record {
    outstanding_ok = ground (arith, sum_by-rows (outstanding scope.id), fits);
    daily_ok = elim h.daily_ok [ inl b ↦ cc | inr d ↦ inr (λ day. day-admitted day (d day)) ];
  }

  -- The new row weighs nothing in another scope.
  other-admitted :
      (s : Scope)
      → eq_text scope.id s.id ≡ false
      → WithinLimits s db.reservations
      → WithinLimits s rows
  unfolding row
  other-admitted s other h = record {
    outstanding_ok = ground (arith, sum_by-rows (outstanding s.id), h.outstanding_ok, other);
    daily_ok = elim h.daily_ok [
      | inl b ↦ inl b
      | inr d ↦ inr λ day. record {
        units_ok = ground (arith, sum_by-rows (day_units s.id day), (d day).units_ok, other);
        tokens_ok = ground (arith, sum_by-rows (day_tokens s.id day), (d day).tokens_ok, other);
        lanes_ok = λ name lim e. (
          ground
              (arith, sum_by-rows (lane_units s.id name day), (d day).lanes_ok name lim e, other),
          ground
              (arith, sum_by-rows (lane_tokens s.id name day), (d day).lanes_ok name lim e, other),
        );
      }
    ];
  }

  -- Of all scopes that a search finds, the row weighs on `scope` alone.
  any-admitted : (key : Text) (s : Scope) → find_scope key db.scopes ≡ some s → WithinLimits s rows
  any-admitted key s e = elim (Bool-cases (eq_text scope.id s.id)) [
    | inl this ↦
        let same_key : key ≡ scope.id =
          sym ((eq_text_iff s.id key).0 (find_sound (λ x. eq_text x.id key) db.scopes s e))
          ∙ sym ((eq_text_iff scope.id s.id).0 this) in
        let same : scope ≡ s = cc (known, e, ap (λ k. find_scope k db.scopes) same_key) in
        subst (λ x. WithinLimits x rows) same (own-admitted (sound.within scope.id scope known))
    | inr other ↦ other-admitted s other (sound.within key s e)
  ]

  pub admitted-IsSound : IsSound (record db { reservations = rows; next_id = db.next_id + 1 })
  unfolding rows row
  admitted-IsSound = record {
    unique = Between-append 0 db.next_id db.reservations row sound.unique refl;
    honest = All-append IsHonest db.reservations (row ∷ []) sound.honest ((λ x. (refl, refl)), tt);
    within = any-admitted;
  }
