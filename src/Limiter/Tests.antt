-- ===== src/Limiter/Tests.antt =====
-- Runs of the limiters of apps/worker/src/concurrency.ts, and each of their properties at an input that it
-- covers.
use tech_p.Base.{
  ℕ, ◌≤◌, ◌<◌, ◌≡◌, ◌⊎◌, refl, List, [], ◌∷◌, arith, length, find, any, keep_if, update_where, some,
  Text, codes, eq_text, nat, ok, All,
}
use tech_p.Limiter.Caps.{SourceConcurrency, uniform, cap_for}
use tech_p.Limiter.Lanes.{
  Lanes, Submitted, no_lanes, with_lane, drain_from, push_waiter, run, submit, Reached,
}
use tech_p.Limiter.Fairness.{IsFair, finish_times, lanes-IsFair, every_waiter_starts}
use tech_p.Limiter.Leases.{Lease, LeaseCall, acquires, renews, releases, lease_calls}
use tech_p.Limiter.Kept.{Held, lease_of, live_lease_is_kept, holders_within_cap}

abbrev caps : SourceConcurrency
caps = uniform (nat 1)

abbrev source : Text
source = codes "arxiv"

abbrev lane_then : ℕ → Lanes → Lanes
lane_then operation lanes = with_lane source (push_waiter 1 operation (lanes source)) lanes

abbrev both : Submitted
both = submit source 6 (submit source 5 (λ key. []))

-- The second operation waits for the first.
waiting : Reached caps (nat 1) both (lane_then 6 (lane_then 5 no_lanes))
unfolding run cap_for
waiting = Reached.submits source 6 (Reached.submits source 5 Reached.start refl) refl

allows_one : cap_for source caps (nat 1) ≡ ok 1
unfolding cap_for
allows_one = refl

one_waits : (lane_then 6 (lane_then 5 no_lanes) source).waiters ≡ 6 ∷ []
unfolding push_waiter drain_from eq_text
one_waits = refl

lanes-IsFair_example : IsFair 1 (both source) (lane_then 6 (lane_then 5 no_lanes) source)
lanes-IsFair_example =
    lanes-IsFair caps (nat 1) both (lane_then 6 (lane_then 5 no_lanes)) source 1 waiting allows_one

every_waiter_starts_example :
    (((lane_then 6 (lane_then 5 no_lanes) source).waiters ≡ [])
      ⊎ (0 < (lane_then 6 (lane_then 5 no_lanes) source).active))
    × ((finish_times 1
          (length (lane_then 6 (lane_then 5 no_lanes) source).waiters)
          (lane_then 6 (lane_then 5 no_lanes) source)).started
        ≡ both source)
every_waiter_starts_example =
    every_waiter_starts caps (nat 1) both (lane_then 6 (lane_then 5 no_lanes)) source 1 waiting
      allows_one

-- Three workers ask for two leases; the third gets none until one has expired.
abbrev contended : List LeaseCall
contended = acquires 1 100 ∷ acquires 2 200 ∷ acquires 3 300 ∷ renews 2 900 ∷ acquires 3 1200 ∷ []

abbrev two_left : List Lease
two_left = record { token = 2; expires = 1900 } ∷ record { token = 3; expires = 2200 } ∷ []

contends : lease_calls 2 1000 contended [] ≡ two_left
unfolding lease_calls any keep_if update_where
contends = refl

two-Held : All (Held (lease_calls 2 1000 contended [])) (2 ∷ 3 ∷ [])
unfolding lease_calls any keep_if update_where find
two-Held = (
  (record { token = 2; expires = 1900 }, refl),
  ((record { token = 3; expires = 2200 }, refl), tt),
)

holders_within_cap_example : 2 ≤ 2
holders_within_cap_example =
    holders_within_cap 2 1000 contended [] (2 ∷ 3 ∷ []) (omega arith) (omega arith) two-Held

abbrev held_row : Lease
held_row = record { token = 2; expires = 1900 }

held_before : lease_of 2 two_left ≡ some held_row
unfolding find
held_before = refl

abbrev others : List LeaseCall
others = acquires 4 1300 ∷ releases 3 ∷ acquires 4 1400 ∷ renews 4 5000 ∷ []

live_lease_is_kept_example : lease_of 2 (lease_calls 2 1000 others two_left) ≡ some held_row
live_lease_is_kept_example =
    live_lease_is_kept 2 1000 others 2 two_left held_row held_before (omega arith)
