-- ===== src/Calls/Port.antt =====
-- ProviderBudgetPort of packages/domain/src/model-work.ts, as far as a provider call uses it, with what
-- a call relies on: an open reservation is one that is reserved and neither settled nor held.
use tech_p.Base.{
  ℕ, ◌≡◌, ◌≢◌, Bool, true, false, some, Num, safe_nat, is_some, Date, Text, Result, ok, err,
}
use tech_p.Budget.Ledger.{BudgetError, Reservation}

pub record BudgetPort : Type 1 where
  pub State : Type 0
  pub is_open : ℕ → State → Bool
  pub reserve :
      Text → Text → Text → Num → Num → Date → State → Result BudgetError (Reservation × State)
  pub settle : ℕ → Num → Num → ℕ → State → Result BudgetError State
  pub hold_unknown : ℕ → ℕ → State → State
  -- a reservation opens no other
  pub reserve_opens :
      (scope attempt lane : Text) (units tokens : Num) (now : Date) (s : State) (r : Reservation)
      (s' : State)
      → reserve scope attempt lane units tokens now s ≡ ok (r, s')
      → (id : ℕ) → id ≢ r.id
      → is_open id s' ≡ true
      → is_open id s ≡ true
  -- what is reserved is a number
  pub reserve_safe :
      (scope attempt lane : Text) (units tokens : Num) (now : Date) (s : State) (r : Reservation)
      (s' : State)
      → reserve scope attempt lane units tokens now s ≡ ok (r, s')
      → is_some (safe_nat units) ≡ true
  -- a settlement closes its reservation, and opens none
  pub settle_closes :
      (id : ℕ) (units tokens : Num) (now : ℕ) (s s' : State)
      → settle id units tokens now s ≡ ok s'
      → (is_open id s' ≡ false) × ((n : ℕ) → is_open n s' ≡ true → is_open n s ≡ true)
  -- a settlement of amounts that are numbers is refused only for a reservation that is not open
  pub settle_refuses :
      (id a b : ℕ) (units tokens : Num) (now : ℕ) (s : State) (e : BudgetError)
      → safe_nat units ≡ some a
      → safe_nat tokens ≡ some b
      → settle id units tokens now s ≡ err e
      → is_open id s ≡ false
  -- a reservation that is held is closed, and none is opened
  pub hold_closes :
      (id now : ℕ) (s : State)
      → (is_open id (hold_unknown id now s) ≡ false)
        × ((n : ℕ) → is_open n (hold_unknown id now s) ≡ true → is_open n s ≡ true)
