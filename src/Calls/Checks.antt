-- ===== src/Calls/Checks.antt =====
-- The tests of packages/domain/src/provider-budget.ts on a profile, caps and a price, and the amounts
-- that a call reserves.
use tech_p.Base.{
  ℕ, ◌+◌, ◌*◌, ◌/◌, Bool, true, false, not, ◌&&◌, ◌||◌, Option, none, some, [], ◌∷◌, if◌then◌else◌,
  leb, ltb, ◌==◌, min, Num, safe_nat, Text, is_space, is_blank, Result, ok, ◌>>=◌, ◌>>◌, throw_if,
  need,
}
use tech_p.Budget.Ledger.{BudgetError, approval_required, invalid_usage}
use tech_p.Embedding.Items.{Profile, in_dimensions}

pub data CallError : Type 0 where
  budget : BudgetError → CallError
  unsupported_input : CallError
  provider_error : CallError

pub record ExecutionCaps : Type 0 where
  pub max_input : Num
  pub max_context : Option Num
  pub max_output : Option Num
  pub timeout : Option Num

abbrev pub keep_positive : Option ℕ → Option ℕ
keep_positive none = none
keep_positive (some m) = if ltb 0 m then some m else none

-- `Number.isSafeInteger(n) && n > 0`, with the value
abbrev pub positive : Num → Option ℕ
positive n = keep_positive (safe_nat n)

abbrev pub lacks_value : Option ℕ → Bool
lacks_value none = true
lacks_value (some m) = false

-- A cap that is given and is no positive number.
abbrev pub lacks_positive : Option Num → Bool
lacks_positive none = false
lacks_positive (some n) = lacks_value (positive n)

-- assertValidModelProfile
unfoldable pub assert_profile : Profile → Result CallError (Unit {0})
assert_profile p = do
  throw_if
      (is_blank p.provider
        || is_blank p.model
        || is_blank p.version
        || is_blank p.price_version
        || is_blank p.tokenizer_version
        || is_blank p.approval_reference)
      (budget approval_required)
  throw_if (not (in_dimensions (safe_nat p.dimensions))) (budget invalid_usage)

-- assertValidBudgetCaps, with the cap on the input.
unfoldable pub assert_caps : ExecutionCaps → Result CallError ℕ
assert_caps caps = do
  input ← need (positive caps.max_input) (budget approval_required)
  throw_if (lacks_positive caps.max_output) (budget approval_required)
  throw_if (lacks_positive caps.max_context) (budget approval_required)
  throw_if (lacks_positive caps.timeout) (budget invalid_usage)
  ok input

-- assertValidPriceRate: the price of a thousand tokens.
unfoldable pub assert_rate : Num → Result CallError ℕ
assert_rate rate = need (safe_nat rate) (budget invalid_usage)

-- The number of words of a text: `text.trim().split(/\s+/u).length` of a text that is not blank.
unfoldable pub words : Bool → Text → ℕ
words inside [] = 0
words inside (c ∷ s) =
    let rest = words (not (is_space c)) s in if is_space c || inside then rest else rest + 1

-- `Math.ceil(words * 1.2)`
unfoldable pub estimate_tokens : Text → Text → Result CallError ℕ
unfolding words
estimate_tokens text tokenizer = do
  throw_if (is_blank tokenizer) (budget invalid_usage)
  ok (if is_blank text then 0 else (words false text * 6 + 4) / 5)

-- `Math.ceil(tokens * rate / 1000)`, at least 1
abbrev pub token_price : ℕ → ℕ → ℕ
token_price tokens rate = at_least_one ((tokens * rate + 999) / 1000)
  where
    at_least_one : ℕ → ℕ
    at_least_one n = if ltb 0 n then n else 1

unfoldable pub token_units : Num → Num → Result CallError ℕ
unfolding assert_rate
token_units tokens rate = do
  t ← need (safe_nat tokens) (budget invalid_usage)
  r ← assert_rate rate
  ok (if t == 0 then 0 else token_price t r)

abbrev at_least : ℕ → Option ℕ → Option ℕ
at_least low none = none
at_least low (some n) = if leb low n then some n else none

-- reservedInputTokens: an upper bound that the caller gives may not be below the estimate.
unfoldable pub bound_or : Option Num → ℕ → Result CallError ℕ
bound_or none estimated = ok estimated
bound_or (some n) estimated = need (at_least estimated (safe_nat n)) (budget invalid_usage)

unfoldable pub reserved_input : Text → Profile → Option Num → Result CallError ℕ
unfolding estimate_tokens bound_or
reserved_input text p bound = do
  estimated ← estimate_tokens text p.tokenizer_version
  bound_or bound estimated

abbrev pub beyond : ℕ → Option ℕ → Bool
beyond n none = false
beyond n (some m) = ltb 0 m && ltb m n

-- `cap && n > cap`
abbrev pub over : ℕ → Option Num → Bool
over n none = false
over n (some cap) = beyond n (safe_nat cap)

-- `caps.maxOutputTokens ?? 4096`
abbrev pub output_cap : Option Num → Result CallError ℕ
output_cap none = ok 4096
output_cap (some n) = need (positive n) (budget approval_required)

-- `Math.min(requested ?? cap, cap)`, where a request must be positive
unfoldable pub within_cap : Option Num → ℕ → Result CallError ℕ
within_cap none limit = ok limit
within_cap (some n) limit = do
  asked ← need (positive n) (budget invalid_usage)
  ok (min asked limit)

unfoldable pub output_tokens : Option Num → Option Num → Result CallError ℕ
unfolding within_cap
output_tokens requested cap = do limit ← output_cap cap; within_cap requested limit
