-- ===== src/Abuse/Tests.antt =====
-- The limiters of apps/api/src/abuse-controls.ts on concrete inputs, and each property of them at an
-- input that it covers.
use tech_p.Base.{
  ℕ, ◌+◌, ◌≤◌, min, ◌≡◌, refl, List, [], ◌∷◌, arith, find, keep_if, Text, eq_text, codes,
}
use tech_p.Abuse.Limits.{RateLimiter, Concurrency, check}
use tech_p.Abuse.Bounds.{
  SlotCall, allowed_among, requests_of, all_before, slot_calls, window_allows_maximum,
  active_at_most,
}

abbrev limiter : RateLimiter
limiter = record { window_ms = 1000; max_requests = 2; hits = [] }

-- Four requests of one key, and one of another between them.
abbrev later_requests : List (Text × ℕ)
later_requests = (codes "k", 20) ∷ (codes "other", 5000) ∷ (codes "k", 30) ∷ (codes "k", 40) ∷ []

allowed_two : allowed_among (codes "k") ((codes "k", 10) ∷ later_requests) limiter ≡ 2
unfolding allowed_among check find keep_if eq_text
allowed_two = refl

window_allows_maximum_example :
    allowed_among (codes "k") ((codes "k", 10) ∷ later_requests) limiter
    ≡ min 2 (requests_of (codes "k") later_requests + 1)
unfolding find all_before eq_text
window_allows_maximum_example =
    window_allows_maximum (codes "k") 10 later_requests limiter refl (omega arith) refl

abbrev slots : Concurrency
slots = record { max_concurrent = 1; active = 0 }

active_at_most_example :
    (slot_calls
      (SlotCall.acquire ∷ SlotCall.acquire ∷ SlotCall.give_back ∷ SlotCall.give_back ∷ [])
      slots).active
    ≤ 1
active_at_most_example =
    active_at_most
      (SlotCall.acquire ∷ SlotCall.acquire ∷ SlotCall.give_back ∷ SlotCall.give_back ∷ []) slots
      (omega arith)
