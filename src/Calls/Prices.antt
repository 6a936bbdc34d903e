-- ===== src/Calls/Prices.antt =====
-- The price of tokens in packages/domain/src/provider-budget.ts, for smaller numbers of them.
use mathlib.Core.Path.{subst}
use tech_p.Base.{
  ℕ, ◌+◌, ◌*◌, ◌/◌, ◌≤◌, ◌≡◌, sym, ◌∙◌, ap, true, arith, leb, ◌==◌, max_safe, if◌then◌else◌, Num,
  nat, safe_nat, ok, need, bind-eq-ok, need-eq-ok, ok_injective,
}
use tech_p.Budget.Ledger.{invalid_usage}
use tech_p.Calls.Checks.{budget, token_price, token_units, assert_rate}

price_mono : (t most r : ℕ) → t ≤ most → (t * r + 999) / 1000 ≤ (most * r + 999) / 1000
price_mono t most r small = let scaled : t * r ≤ most * r = grind arith in omega arith

abbrev price : ℕ → ℕ → ℕ
price t r = if t == 0 then 0 else token_price t r

price-le : (t most r : ℕ) → t ≤ most → price t r ≤ price most r
price-le t most r small = ground (arith, price_mono t most r small)

-- A smaller number of tokens has a smaller price, which is a safe integer too.
pub token_units-le :
    (tokens most : ℕ) (rate : Num) (units : ℕ)
    → token_units (nat most) rate ≡ ok units
    → tokens ≤ most
    → (u : ℕ) × (token_units (nat tokens) rate ≡ ok u) × (u ≤ units)
unfolding token_units assert_rate
token_units-le tokens most rate units e small =
    let (m, f, e1) = bind-eq-ok (need (safe_nat (nat most)) (budget invalid_usage)) _ e in
    let (r, g, e2) = bind-eq-ok (need (safe_nat rate) (budget invalid_usage)) _ e1 in
    let whole = need-eq-ok (safe_nat (nat most)) (budget invalid_usage) f in
    let same : m ≡ most = ground arith in
    let fits : leb tokens max_safe ≡ true = ground arith in
    let total : price m r ≡ units = ok_injective e2 in
    let bound = price-le tokens most r small in
    let rated = need-eq-ok (safe_nat rate) (budget invalid_usage) g in
    (
      price tokens r,
      rw fits (rw rated),
      subst (λ n. price tokens r ≤ n) (ap (λ n. price n r) (sym same) ∙ total) bound,
    )
