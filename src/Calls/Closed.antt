-- ===== src/Calls/Closed.antt =====
-- What a provider call of packages/domain/src/provider-budget.ts leaves behind in the budget.
use tech_p.Base.{
  ℕ, ◌+◌, ◌≤◌, ◌≡◌, ◌≢◌, refl, sym, ◌∙◌, ap, Bool, true, false, some, arith, leb, max_safe, Num,
  nat, safe_nat, Date, at, Text, codes, Result, ok, err, need, bind-eq-ok, need-eq-ok, is_some,
  ok_injective, Bool-cases, inl, inr, ◌&&◌,
}
use tech_p.Budget.Ledger.{BudgetError, invalid_usage, Reservation}
use tech_p.Calls.Port.{BudgetPort}
use tech_p.Calls.Checks.{CallError, budget, token_units}
use tech_p.Calls.Prices.{token_units-le}
use tech_p.Embedding.Items.{Profile, valid_vector}
use tech_p.Calls.Guarded.{
  CallOptions, ChatRequest, ChatOutcome, EmbedOutcome, chat_charge, embed_charge, chat_amounts,
  embed_amounts, checked_input, same_count, at_most, settled_or, charge_units, close_call,
  after_reserve, chat_reserved, chat_with_budget, embed_reserved, embed_with_budget,
}

-- The price of what the provider reports is a safe integer.
abbrev fits : Result CallError ℕ → Bool
fits (ok units) = leb units max_safe
fits (err e) = false

abbrev pub payable : Result CallError Num → Num → Bool
payable (err e) rate = true
payable (ok tokens) rate = fits (token_units tokens rate)

token_units-safe :
    (tokens rate : Num) (u : ℕ)
    → token_units tokens rate ≡ ok u
    → (t : ℕ) × (safe_nat tokens ≡ some t)
unfolding token_units
token_units-safe tokens rate u e =
    let (t, f, _) = bind-eq-ok (need (safe_nat tokens) (budget invalid_usage)) _ e in
    (t, need-eq-ok (safe_nat tokens) (budget invalid_usage) f)

-- The amount that a query embedding reserves is the price of its tokens.
embed_amounts-units :
    (text : Text) (o : CallOptions) (input units : ℕ)
    → embed_amounts text o ≡ ok (input, units)
    → token_units (nat input) o.rate ≡ ok units
unfolding embed_amounts
embed_amounts-units text o input units e =
    let (i, _, e1) = bind-eq-ok (checked_input o false text) _ e in
    let (u, priced, e2) = bind-eq-ok (token_units (nat i) o.rate) _ e1 in
    let same_i : i ≡ input = ap (λ (x : ℕ × ℕ). x.0) (ok_injective e2) in
    let same_u : u ≡ units = ap (λ (x : ℕ × ℕ). x.1) (ok_injective e2) in
    sym (ap (λ k. token_units (nat k) o.rate) same_i) ∙ (priced ∙ ap ok same_u)

-- No usage is charged above the tokens that are reserved, so that its price is no more than theirs.
priced_below :
    (n : Num) (input units : ℕ) (rate : Num)
    → token_units (nat input) rate ≡ ok units
    → is_some (safe_nat (nat units)) ≡ true
    → at_most (safe_nat n) input ≡ true
    → fits (token_units n rate) ≡ true
priced_below (nat t) input units rate e safe small =
    let (u, priced, less) = token_units-le t input rate units e (ground arith) in
    let bound : units ≤ max_safe = ground arith in ap fits priced ∙ ground arith
priced_below (Num.neg t) input units rate e safe small = absurd cc
priced_below Num.inexact input units rate e safe small = absurd cc

embed_charge-payable :
    (p : Profile) (input units : ℕ) (outcome : EmbedOutcome) (rate : Num)
    → token_units (nat input) rate ≡ ok units
    → is_some (safe_nat (nat units)) ≡ true
    → payable (embed_charge p input outcome) rate ≡ true
unfolding embed_charge
embed_charge-payable p input units EmbedOutcome.thrown rate e safe = refl
embed_charge-payable p input units (EmbedOutcome.answered vector u) rate e safe =
    elim (Bool-cases (
      valid_vector vector p.dimensions
      && same_count (safe_nat u.input) (safe_nat u.total)
      && at_most (safe_nat u.total) input)) [
        | inl pays ↦ rw pays (priced_below u.total input units rate e safe (ground arith))
        | inr refused ↦ rw refused refl
      ]

module _ (port : BudgetPort) where
  open port use {State, is_open, settle, hold_unknown}

  -- The reservation `id` is closed, and nothing is open that was not.
  abbrev Closes : ℕ → State → State → Type 0
  Closes id s end = (is_open id end ≡ false) × ((n : ℕ) → is_open n end ≡ true → is_open n s ≡ true)

  settled_or-Closes :
      (id u t : ℕ) (tokens : Num) (now : ℕ) (s : State) (m : Result BudgetError State)
      → settle id (nat u) tokens now s ≡ m
      → u ≤ max_safe
      → safe_nat tokens ≡ some t
      → Closes id s (settled_or port m s).1
  unfolding settled_or
  settled_or-Closes id u t tokens now s (ok s') e small safe =
      port.settle_closes id (nat u) tokens now s s' e
  settled_or-Closes id u t tokens now s (err x) e small safe =
      (port.settle_refuses id u t (nat u) tokens now s x (ground arith) safe e, λ n h. h)

  charge_units-Closes :
      (m : Result CallError ℕ) (id : ℕ) (tokens rate : Num) (now : ℕ) (s : State)
      → token_units tokens rate ≡ m
      → fits m ≡ true
      → Closes id s (charge_units port m id tokens now s).1
  unfolding charge_units
  charge_units-Closes (err e) id tokens rate now s h small = cc
  charge_units-Closes (ok u) id tokens rate now s h small =
      let (t, safe) = token_units-safe tokens rate u h in
      settled_or-Closes id u t tokens now s _ refl (ground arith) safe

  close_call-Closes :
      (charge : Result CallError Num) (rate : Num) (id now : ℕ) (s : State)
      → payable charge rate ≡ true
      → Closes id s (close_call port charge rate id now s).1
  unfolding close_call
  close_call-Closes (err e) rate id now s h = port.hold_closes id now s
  close_call-Closes (ok tokens) rate id now s h =
      charge_units-Closes (token_units tokens rate) id tokens rate now s refl h

  after_reserve-closed :
      (scope attempt lane : Text) (units tokens : Num) (date : Date)
      (m : Result BudgetError (Reservation × State)) (charge : Result CallError Num) (rate : Num)
      (now : ℕ) (s : State)
      → port.reserve scope attempt lane units tokens date s ≡ m
      → (is_some (safe_nat units) ≡ true → payable charge rate ≡ true)
      → (n : ℕ) → is_open n (after_reserve port m charge rate now s).1 ≡ true
      → is_open n s ≡ true
  unfolding after_reserve
  after_reserve-closed scope attempt lane units tokens date (err e) charge rate now s h pay n
        open_now =
      open_now
  after_reserve-closed scope attempt lane units tokens date (ok (r, s')) charge rate now s h pay n
        open_now =
      let (closed, same) =
        close_call-Closes charge rate r.id now s'
          (pay (port.reserve_safe scope attempt lane units tokens date s r s' h)) in
      let other : n ≢ r.id = λ e.
        let still : is_open r.id (close_call port charge rate r.id now s').1 ≡ true =
          ap (λ k. is_open k (close_call port charge rate r.id now s').1) (sym e) ∙ open_now in
        cc in
      port.reserve_opens scope attempt lane units tokens date s r s' h n other (same n open_now)

  -- A chat call leaves no reservation open that was not open before it, whatever the provider does and
  -- wherever the call throws, if the price of a reported usage is a safe integer.
  pub chat_leaves_none_open :
      (request : ChatRequest) (o : CallOptions) (outcome : ChatOutcome) (s : State)
      → payable (chat_charge outcome) o.rate ≡ true
      → (n : ℕ) → is_open n (chat_with_budget port request o outcome s).1 ≡ true
      → is_open n s ≡ true
  unfolding chat_with_budget
  chat_leaves_none_open request o outcome s pay = go (chat_amounts request o)
    where
      go :
          (m : Result CallError (ℕ × ℕ × ℕ)) (n : ℕ)
          → is_open n (chat_reserved port m o outcome s).1 ≡ true
          → is_open n s ≡ true
      go (err e) n h = h
      go (ok (input, output, units)) n h =
          after_reserve-closed o.scope_id o.attempt_id (codes "chat") (nat units)
            (nat (input + output)) (at o.now) _ (chat_charge outcome) o.rate o.now s refl
            (λ safe. pay) n h

  -- A query embedding leaves no reservation open that was not open before it, whatever the provider does and
  -- reports, and wherever the call throws.
  pub embed_leaves_none_open :
      (lane text : Text) (o : CallOptions) (outcome : EmbedOutcome) (s : State)
      → (n : ℕ) → is_open n (embed_with_budget port lane text o outcome s).1 ≡ true
      → is_open n s ≡ true
  unfolding embed_with_budget
  embed_leaves_none_open lane text o outcome s = go (embed_amounts text o) refl
    where
      go :
          (m : Result CallError (ℕ × ℕ))
          → embed_amounts text o ≡ m
          → (n : ℕ) → is_open n (embed_reserved port m lane o outcome s).1 ≡ true
          → is_open n s ≡ true
      go (err e) given n h = h
      go (ok (input, units)) given n h =
          after_reserve-closed o.scope_id o.attempt_id lane (nat units) (nat input) (at o.now) _
            (embed_charge o.profile input outcome) o.rate o.now s refl
            (λ safe.
              embed_charge-payable o.profile input units outcome o.rate
                (embed_amounts-units text o input units given) safe)
            n h
