-- ===== src/Calls/Guarded.antt =====
-- executeChatWithBudget and executeQueryEmbeddingWithBudget of packages/domain/src/provider-budget.ts.
-- What the provider answers is an argument. A call that throws keeps what the budget port did before, so
-- the state is returned beside the result.
use tech_p.Base.{
  ℕ, ◌+◌, Bool, true, false, ◌&&◌, ◌||◌, Option, none, some, List, [], ◌∷◌, ◌++◌, if◌then◌else◌,
  leb, ltb, ◌==◌, is_some, Num, nat, safe_nat, at, Text, codes, is_blank, Result, ok, err, ◌>>=◌,
  ◌>>◌, throw_if,
}
use tech_p.Budget.Ledger.{BudgetError, approval_required, invalid_usage, Reservation}
use tech_p.Embedding.Items.{Profile, Component, valid_vector}
use tech_p.Calls.Port.{BudgetPort}
use tech_p.Calls.Checks.{
  CallError, budget, unsupported_input, provider_error, ExecutionCaps, assert_profile, assert_caps,
  assert_rate, reserved_input, over, output_tokens, token_units,
}

pub record CallOptions : Type 0 where
  pub scope_id : Text
  pub attempt_id : Text
  pub profile : Profile
  pub caps : ExecutionCaps
  pub rate : Num
  pub now : ℕ
  pub upper_bound : Option Num

pub record ChatRequest : Type 0 where
  pub messages : List (Text × Text)
  pub max_output : Option Num

pub record Usage : Type 0 where
  pub input : Num
  pub output : Num
  pub total : Num

pub data ChatOutcome : Type 0 where
  thrown : ChatOutcome
  answered : Option Usage → ChatOutcome

pub data EmbedOutcome : Type 0 where
  thrown : EmbedOutcome
  answered : List Component → Usage → EmbedOutcome

-- `messages.map((m) => `${m.role}:${m.content}`).join('\n')`
unfoldable pub chat_text : List (Text × Text) → Text
chat_text [] = []
chat_text ((role, content) ∷ []) = role ++ codes ":" ++ content
chat_text ((role, content) ∷ m ∷ ms) = role ++ codes ":" ++ content ++ 10 ∷ chat_text (m ∷ ms)

abbrev pub is_none_of : List (Text × Text) → Bool
is_none_of [] = true
is_none_of (m ∷ ms) = false

-- What both calls test before anything is reserved, and the tokens of the input.
unfoldable pub checked_input : CallOptions → Bool → Text → Result CallError ℕ
checked_input o absent text = do
  assert_profile o.profile
  cap ← assert_caps o.caps
  assert_rate o.rate >>= λ _. (do
    throw_if (is_blank o.scope_id) (budget approval_required)
    throw_if (is_blank o.attempt_id) (budget invalid_usage)
    throw_if (absent || is_blank text) unsupported_input
    input ← reserved_input text o.profile o.upper_bound
    throw_if (ltb cap input || over input o.caps.max_context) (budget invalid_usage)
    ok input)

-- The amounts of a call: the tokens of the input, of the output, and the units reserved for both.
unfoldable pub chat_amounts : ChatRequest → CallOptions → Result CallError (ℕ × ℕ × ℕ)
unfolding checked_input chat_text
chat_amounts request o = do
  input ← checked_input o (is_none_of request.messages) (chat_text request.messages)
  output ← output_tokens request.max_output o.caps.max_output
  units ← token_units (nat (input + output)) o.rate
  ok (input, output, units)

unfoldable pub embed_amounts : Text → CallOptions → Result CallError (ℕ × ℕ)
unfolding checked_input
embed_amounts text o = do
  input ← checked_input o false text
  units ← token_units (nat input) o.rate
  ok (input, units)

-- The tokens that a chat call is charged, if its usage can be read.
abbrev is_count : Num → Bool
is_count n = is_some (safe_nat n)

unfoldable pub chat_charge : ChatOutcome → Result CallError Num
chat_charge thrown = err provider_error
chat_charge (answered none) = err (budget invalid_usage)
chat_charge (answered (some u)) =
    if is_count u.total && is_count u.input && is_count u.output
    then ok u.total
    else err (budget invalid_usage)

abbrev pub same_count : Option ℕ → Option ℕ → Bool
same_count (some a) (some b) = a == b
same_count _ _ = false

abbrev pub at_most : Option ℕ → ℕ → Bool
at_most none n = false
at_most (some m) n = leb m n

-- The tokens that an embedding is charged: a vector of the right shape, and a usage that is all input
-- and not above what was reserved.
unfoldable pub embed_charge : Profile → ℕ → EmbedOutcome → Result CallError Num
embed_charge p tokens thrown = err provider_error
embed_charge p tokens (answered vector u) =
    if valid_vector vector p.dimensions
      && same_count (safe_nat u.input) (safe_nat u.total)
      && at_most (safe_nat u.total) tokens
    then ok u.total
    else err (budget invalid_usage)

module _ (port : BudgetPort) where
  open port use {State, reserve, settle, hold_unknown}

  -- Held in doubt, settled, or left as it is when the settlement throws.
  unfoldable pub settled_or : Result BudgetError State → State → Result CallError (Unit {0}) × State
  settled_or (ok s') s = (ok tt, s')
  settled_or (err e) s = (err (budget e), s)

  unfoldable pub charge_units :
      Result CallError ℕ → ℕ → Num → ℕ → State → Result CallError (Unit {0}) × State
  unfolding settled_or
  charge_units (err e) id tokens now s = (err e, s)
  charge_units (ok units) id tokens now s = settled_or (settle id (nat units) tokens now s) s

  -- After the provider: a charge that cannot be told holds the reservation, else it is settled.
  unfoldable pub close_call :
      Result CallError Num → Num → ℕ → ℕ → State → Result CallError (Unit {0}) × State
  unfolding charge_units
  close_call (err e) rate id now s = (err e, hold_unknown id now s)
  close_call (ok tokens) rate id now s = charge_units (token_units tokens rate) id tokens now s

  -- The reservation comes first; the provider is called only if it is granted.
  unfoldable pub after_reserve :
      Result BudgetError (Reservation × State)
      → Result CallError Num
      → Num
      → ℕ
      → State
      → Result CallError (Unit {0}) × State
  unfolding close_call
  after_reserve (err e) charge rate now s = (err (budget e), s)
  after_reserve (ok (r, s')) charge rate now s = close_call charge rate r.id now s'

  unfoldable pub chat_reserved :
      Result CallError (ℕ × ℕ × ℕ)
      → CallOptions
      → ChatOutcome
      → State
      → Result CallError (Unit {0}) × State
  unfolding after_reserve chat_charge
  chat_reserved (err e) o outcome s = (err e, s)
  chat_reserved (ok (input, output, units)) o outcome s =
      after_reserve
        (reserve o.scope_id o.attempt_id (codes "chat") (nat units) (nat (input + output))
          (at o.now) s)
        (chat_charge outcome) o.rate o.now s

  -- executeChatWithBudget
  unfoldable pub chat_with_budget :
      ChatRequest → CallOptions → ChatOutcome → State → Result CallError (Unit {0}) × State
  unfolding chat_reserved
  chat_with_budget request o outcome s = chat_reserved (chat_amounts request o) o outcome s

  unfoldable pub embed_reserved :
      Result CallError (ℕ × ℕ)
      → Text
      → CallOptions
      → EmbedOutcome
      → State
      → Result CallError (Unit {0}) × State
  unfolding after_reserve embed_charge
  embed_reserved (err e) lane o outcome s = (err e, s)
  embed_reserved (ok (input, units)) lane o outcome s =
      after_reserve (reserve o.scope_id o.attempt_id lane (nat units) (nat input) (at o.now) s)
        (embed_charge o.profile input outcome) o.rate o.now s

  -- executeQueryEmbeddingWithBudget
  unfoldable pub embed_with_budget :
      Text → Text → CallOptions → EmbedOutcome → State → Result CallError (Unit {0}) × State
  unfolding embed_reserved
  embed_with_budget lane text o outcome s = embed_reserved (embed_amounts text o) lane o outcome s
