-- ===== src/Calls/Amounts.antt =====
-- The amounts that packages/domain/src/provider-budget.ts reserves for a call.
use mathlib.Core.Path.{subst}
use tech_p.Base.{
  ℕ, ◌+◌, ◌≤◌, ◌<◌, ◌≡◌, refl, ap, Bool, false, ◌||◌, Option, none, some, arith, ltb, min, Num, nat,
  safe_nat, Text, is_blank, ok, throw_if, need, bind-eq-ok, ok_injective, need-eq-ok,
  throw_if-eq-ok,
}
use tech_p.Budget.Ledger.{approval_required, invalid_usage}
use tech_p.Calls.Checks.{
  budget, unsupported_input, assert_profile, assert_caps, assert_rate, reserved_input, over,
  output_tokens, token_units, positive, keep_positive, lacks_positive, lacks_value, beyond,
  output_cap, within_cap,
}
use tech_p.Calls.Guarded.{
  CallOptions, ChatRequest, checked_input, chat_amounts, chat_text, is_none_of,
}

keep_positive_sound : (o : Option ℕ) (m : ℕ) → keep_positive o ≡ some m → (o ≡ some m) × (0 < m)
keep_positive_sound none m e = cc
keep_positive_sound (some n) m e = ground arith

positive_sound : (n : Num) (m : ℕ) → positive n ≡ some m → (safe_nat n ≡ some m) × (0 < m)
positive_sound n m e = keep_positive_sound (safe_nat n) m e

-- A cap that is given is a positive number, and bounds the amount from above.
abbrev pub Bounded : ℕ → Option Num → Type 0
Bounded amount none = Unit
Bounded amount (some n) = (m : ℕ) × (safe_nat n ≡ some m) × (amount ≤ m)

output_cap_sound : (cap : Option Num) (m : ℕ) → output_cap cap ≡ ok m → (0 < m) × Bounded m cap
output_cap_sound none m e = let same : 4096 ≡ m = ok_injective e in (omega arith, tt)
output_cap_sound (some n) m e =
    let (safe, above) = positive_sound n m (need-eq-ok (positive n) (budget approval_required) e) in
    (above, (m, safe, omega arith))

Bounded-le : (a b : ℕ) (cap : Option Num) → a ≤ b → Bounded b cap → Bounded a cap
Bounded-le a b none h k = tt
Bounded-le a b (some n) h (m, safe, small) = (m, safe, omega arith)

within_cap_sound :
    (requested : Option Num) (limit m : ℕ)
    → 0 < limit
    → within_cap requested limit ≡ ok m
    → (0 < m) × (m ≤ limit) × Bounded m requested
unfolding within_cap
within_cap_sound none limit m h e =
    let same : limit ≡ m = ok_injective e in (omega arith, omega arith, tt)
within_cap_sound (some n) limit m h e =
    let (asked, f, e1) = bind-eq-ok (need (positive n) (budget invalid_usage)) _ e in
    let (safe, above) = positive_sound n asked (need-eq-ok (positive n) (budget invalid_usage) f) in
    let least : min asked limit ≡ m = ok_injective e1 in
    (omega arith, omega arith, (asked, safe, omega arith))

pub output_tokens_sound :
    (requested cap : Option Num) (m : ℕ)
    → output_tokens requested cap ≡ ok m
    → (0 < m) × Bounded m cap × Bounded m requested
unfolding output_tokens
output_tokens_sound requested cap m e =
    let (limit, f, e1) = bind-eq-ok (output_cap cap) _ e in
    let (above, capped) = output_cap_sound cap limit f in
    let (more, less, asked) = within_cap_sound requested limit m above e1 in
    (more, Bounded-le m limit cap less capped, asked)

over-false :
    (n : ℕ) (cap : Option Num) → over n cap ≡ false → lacks_positive cap ≡ false → Bounded n cap
over-false n none h k = tt
over-false n (some c) h k = go (safe_nat c) refl k h
  where
    go :
        (o : Option ℕ)
        → safe_nat c ≡ o
        → lacks_value (keep_positive o) ≡ false
        → beyond n o ≡ false
        → (m : ℕ) × (safe_nat c ≡ some m) × (n ≤ m)
    go none e k h = cc
    go (some m) e k h = (m, e, ground arith)

checked_input_sound :
    (o : CallOptions) (absent : Bool) (text : Text) (input : ℕ)
    → checked_input o absent text ≡ ok input
    → Bounded input (some o.caps.max_input) × Bounded input o.caps.max_context
unfolding checked_input assert_caps
checked_input_sound o absent text input e =
    let (_, _, e1) = bind-eq-ok (assert_profile o.profile) _ e in
    let (cap, f, e2) = bind-eq-ok (assert_caps o.caps) _ e1 in
    let (capped, g, f1) =
      bind-eq-ok (need (positive o.caps.max_input) (budget approval_required)) _ f in
    let (_, _, f2) =
      bind-eq-ok (throw_if (lacks_positive o.caps.max_output) (budget approval_required)) _ f1 in
    let (_, k, f3) =
      bind-eq-ok (throw_if (lacks_positive o.caps.max_context) (budget approval_required)) _ f2 in
    let (_, _, f4) =
      bind-eq-ok (throw_if (lacks_positive o.caps.timeout) (budget invalid_usage)) _ f3 in
    let same : capped ≡ cap = ok_injective f4 in
    let (_, _, e3) = bind-eq-ok (assert_rate o.rate) _ e2 in
    let (_, _, e4) = bind-eq-ok (throw_if (is_blank o.scope_id) (budget approval_required)) _ e3 in
    let (_, _, e5) = bind-eq-ok (throw_if (is_blank o.attempt_id) (budget invalid_usage)) _ e4 in
    let (_, _, e6) = bind-eq-ok (throw_if (absent || is_blank text) unsupported_input) _ e5 in
    let (n, _, e7) = bind-eq-ok (reserved_input text o.profile o.upper_bound) _ e6 in
    let refused = ltb cap n || over n o.caps.max_context in
    let (_, pass, e8) = bind-eq-ok (throw_if refused (budget invalid_usage)) _ e7 in
    let this : n ≡ input = ok_injective e8 in
    let within = throw_if-eq-ok refused (budget invalid_usage) pass in
    let (safe, _) =
      positive_sound o.caps.max_input capped
        (need-eq-ok (positive o.caps.max_input) (budget approval_required) g) in
    (
      (capped, safe, ground arith),
      subst (λ i. Bounded i o.caps.max_context) this
          (over-false n o.caps.max_context (ground arith)
            (throw_if-eq-ok (lacks_positive o.caps.max_context) (budget approval_required) k)),
    )

-- The amounts that a chat call reserves stay within its caps: the input within the cap on input and on
-- context, the output within the cap on output, and within what the caller asked for, so that a
-- stricter request is never widened. The output is never zero.
pub chat_amounts-Bounded :
    (request : ChatRequest) (o : CallOptions) (input output units : ℕ)
    → chat_amounts request o ≡ ok (input, output, units)
    → Bounded input (some o.caps.max_input)
      × Bounded input o.caps.max_context
      × Bounded output o.caps.max_output
      × Bounded output request.max_output
      × (0 < output)
unfolding chat_amounts
chat_amounts-Bounded request o input output units e =
    let (i, f, e1) =
      bind-eq-ok (checked_input o (is_none_of request.messages) (chat_text request.messages)) _ e in
    let (out, g, e2) = bind-eq-ok (output_tokens request.max_output o.caps.max_output) _ e1 in
    let (u, _, e3) = bind-eq-ok (token_units (nat (i + out)) o.rate) _ e2 in
    let same_i : i ≡ input = ap (λ (x : ℕ × ℕ × ℕ). x.0) (ok_injective e3) in
    let same_out : out ≡ output = ap (λ (x : ℕ × ℕ × ℕ). x.1) (ok_injective e3) in
    let (a, b) =
      checked_input_sound o (is_none_of request.messages) (chat_text request.messages) i f in
    let (c, d, w) = output_tokens_sound request.max_output o.caps.max_output out g in
    (
      subst (λ k. Bounded k (some o.caps.max_input)) same_i a,
      subst (λ k. Bounded k o.caps.max_context) same_i b,
      subst (λ k. Bounded k o.caps.max_output) same_out d,
      subst (λ k. Bounded k request.max_output) same_out w,
      omega arith,
    )
