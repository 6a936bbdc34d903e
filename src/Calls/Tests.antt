-- ===== src/Calls/Tests.antt =====
-- Calls of packages/domain/src/provider-budget.ts against the ledger on concrete inputs, and each
-- property of the calls at an input that it covers.
use tech_p.Base.{
  ◌<◌, ◌≡◌, refl, true, false, none, some, [], ◌∷◌, find, any, all, update_where, sum_by, ◌==◌,
  codes, eq_text, is_space, is_blank, nat, ok,
}
use tech_p.Budget.Ledger.{
  Reservation, reserved, Ledger, Scope, settled, reserve, settle, lane_limit, exceeds,
}
use tech_p.Budget.Ledger.Closing.{is_open}
use tech_p.Embedding.Items.{Profile, component, null_component, valid_vector}
use tech_p.Calls.Checks.{
  ExecutionCaps, assert_profile, assert_caps, words, token_units, output_tokens, within_cap,
  bound_or, estimate_tokens, reserved_input,
}
use tech_p.Calls.Guarded.{
  embed_amounts, CallOptions, ChatRequest, ChatOutcome, EmbedOutcome, Usage, chat_amounts,
  chat_charge, embed_charge, chat_with_budget, embed_with_budget,
}
use tech_p.Calls.LedgerPort.{ledger_port}
use tech_p.Calls.Closed.{payable, chat_leaves_none_open, embed_leaves_none_open}
use tech_p.Calls.Amounts.{Bounded, chat_amounts-Bounded}

abbrev profile : Profile
profile = record {
  provider = codes "p";
  model = codes "m";
  version = codes "1";
  dimensions = nat 2;
  price_version = codes "1";
  tokenizer_version = codes "t";
  approval_reference = codes "DEC";
}

abbrev caps : ExecutionCaps
caps = record {
  max_input = nat 100;
  max_context = none;
  max_output = some (nat 50);
  timeout = none;
}

abbrev options : CallOptions
options = record {
  scope_id = codes "s";
  attempt_id = codes "a";
  profile = profile;
  caps = caps;
  rate = nat 1000;
  now = 5;
  upper_bound = none;
}

abbrev request : ChatRequest
request = record { messages = (codes "user", codes "what is new") ∷ []; max_output = some (nat 20) }

abbrev scope : Scope
scope = record {
  id = codes "s";
  approved = true;
  currency = codes "USD";
  max_daily_units = 1000;
  max_outstanding_units = 600;
  max_daily_tokens = 1000;
  lane_limits =
      (codes "chat", record { max_daily_units = 800; max_daily_tokens = 900 })
      ∷ (codes "query_embedding", record { max_daily_units = 800; max_daily_tokens = 900 })
      ∷ [];
  approved_model_profiles = [];
  blocked = false;
}

-- The reservation of another attempt, open before the call and after it.
abbrev in_flight : Reservation
in_flight = record {
  id = 7;
  scope_id = codes "s";
  attempt_id = codes "z";
  lane = codes "chat";
  utc_day = 0;
  units = 5;
  tokens = 5;
  state = reserved;
  actual_units = none;
  actual_tokens = none;
  created_at = 1;
  updated_at = 1;
}

abbrev start : Ledger
start = record { scopes = scope ∷ []; reservations = in_flight ∷ []; next_id = 8 }

-- Three words, so four tokens, and 20 of output.
amounts : chat_amounts request options ≡ ok (4, 20, 24)
unfolding chat_amounts is_space assert_profile is_blank assert_caps tech_p.Calls.Checks.assert_rate
    reserved_input output_tokens token_units
amounts = refl

chat_amounts-Bounded_example :
    Bounded 4 (some (nat 100))
    × Bounded 4 none
    × Bounded 20 (some (nat 50))
    × Bounded 20 (some (nat 20))
    × (0 < 20)
chat_amounts-Bounded_example = chat_amounts-Bounded request options 4 20 24 amounts

abbrev usage : Usage
usage = record { input = nat 5; output = nat 10; total = nat 15 }

abbrev answer : ChatOutcome
answer = ChatOutcome.answered (some usage)

-- A call that is answered is settled at what it used; one that throws is held.
answered_settles :
    find (λ r. r.id == 8) (chat_with_budget ledger_port request options answer start).1.reservations
    ≡ some (record {
      id = 8;
      scope_id = codes "s";
      attempt_id = codes "a";
      lane = codes "chat";
      utc_day = 0;
      units = 24;
      tokens = 24;
      state = settled;
      actual_units = some 15;
      actual_tokens = some 15;
      created_at = 5;
      updated_at = 5;
    })
unfolding chat_with_budget find chat_amounts assert_profile is_blank is_space assert_caps
    reserved_input output_tokens token_units reserve settle lane_limit exceeds sum_by update_where
    eq_text chat_charge
answered_settles = refl

still_open : is_open 7 (chat_with_budget ledger_port request options answer start).1 ≡ true
unfolding chat_with_budget find chat_amounts assert_profile is_blank is_space assert_caps
    reserved_input output_tokens token_units reserve settle lane_limit exceeds sum_by update_where
    eq_text chat_charge
still_open = refl

chat_payable : payable (chat_charge answer) (nat 1000) ≡ true
unfolding chat_charge token_units
chat_payable = refl

chat_leaves_none_open_example : is_open 7 start ≡ true
chat_leaves_none_open_example =
    chat_leaves_none_open ledger_port request options answer start chat_payable 7 still_open

abbrev vector_answer : EmbedOutcome
vector_answer =
    EmbedOutcome.answered (component 1 ∷ null_component ∷ [])
      (record { input = nat 4; output = nat 0; total = nat 4 })

still_open_embedding :
    is_open 7
      (embed_with_budget ledger_port
        (codes "query_embedding")
        (codes "what is new")
        options
        vector_answer
        start).1
    ≡ true
unfolding embed_with_budget find embed_amounts assert_profile is_blank is_space assert_caps
    reserved_input token_units reserve settle lane_limit exceeds sum_by update_where eq_text
    embed_charge valid_vector all any
still_open_embedding = refl

embed_leaves_none_open_example : is_open 7 start ≡ true
embed_leaves_none_open_example =
    embed_leaves_none_open ledger_port (codes "query_embedding") (codes "what is new") options
      vector_answer start 7 still_open_embedding
