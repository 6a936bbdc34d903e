-- ===== src/Budget/Ledger/Rows.antt =====
-- The table of reservations of packages/database/src/provider-budget.ts: its ids, and an update of
-- one row against a sum over the table.
use tech_p.Base.{
  ℕ, suc, ◌+◌, ◌≤◌, ◌<◌, ◌≡◌, refl, Bool, some, List, [], ◌∷◌, ◌++◌, ◌==◌, arith, find,
  update_where, sum_by, inl, inr, Bool-cases,
}
use tech_p.Budget.Ledger.{Reservation, find_reservation}

-- Ids grow down the table, from `lo` on and below `hi`: so no two rows share one.
abbrev pub Between : ℕ → List Reservation → ℕ → Type 0
Between lo [] hi = lo ≤ hi
Between lo (r ∷ rs) hi = (lo ≤ r.id) × Between (suc r.id) rs hi

pub Between-append :
    (lo hi : ℕ) (rows : List Reservation) (r : Reservation)
    → Between lo rows hi
    → r.id ≡ hi
    → Between lo (rows ++ r ∷ []) (hi + 1)
Between-append lo hi [] r h e = (omega arith, omega arith)
Between-append lo hi (x ∷ rows) r h e = (h.0, Between-append (suc x.id) hi rows r h.1 e)

pub Between-update_where :
    (lo hi : ℕ) (p : Reservation → Bool) (g : Reservation → Reservation) (rows : List Reservation)
    → ((r : Reservation) → (g r).id ≡ r.id)
    → Between lo rows hi
    → Between lo (update_where p g rows) hi
unfolding update_where
Between-update_where lo hi p g [] same h = h
Between-update_where lo hi p g (r ∷ rows) same h = elim (Bool-cases (p r)) [
  | inl hit ↦ rw (hit, same r) (h.0, Between-update_where (suc r.id) hi p g rows same h.1)
  | inr miss ↦ rw miss (h.0, Between-update_where (suc r.id) hi p g rows same h.1)
]

module _ (f : Reservation → ℕ) (g : Reservation → Reservation) where
  sum_by-update_none :
      (lo hi id : ℕ) (rows : List Reservation)
      → Between lo rows hi
      → id < lo
      → sum_by f (update_where (λ r. r.id == id) g rows) ≡ sum_by f rows
  unfolding sum_by update_where
  sum_by-update_none lo hi id [] h lt = refl
  sum_by-update_none lo hi id (r ∷ rows) h lt =
      ground (arith, sum_by-update_none (suc r.id) hi id rows)

  -- Where a row is found by its id, the update changes that row alone.
  pub sum_by-update_one :
      (lo hi id : ℕ) (rows : List Reservation) (row : Reservation)
      → Between lo rows hi
      → find_reservation id rows ≡ some row
      → sum_by f (update_where (λ r. r.id == id) g rows) + f row ≡ sum_by f rows + f (g row)
  unfolding sum_by update_where find
  sum_by-update_one lo hi id [] row h e = cc
  sum_by-update_one lo hi id (r ∷ rows) row h e =
      ground (
        arith,
        sum_by-update_none (suc r.id) hi id rows,
        sum_by-update_one (suc r.id) hi id rows row,
      )
