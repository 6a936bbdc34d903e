-- ===== src/Limiter/Lanes.antt =====
-- InMemorySourceConcurrencyLimiter of apps/worker/src/concurrency.ts: for each source, the number of
-- operations that run and a queue of those that wait.
use tech_p.Base.{
  ℕ, ◌+◌, ◌-◌, ◌<◌, ◌≡◌, List, [], ◌∷◌, ◌++◌, if◌then◌else◌, ltb, Num, Text, eq_text, Result, ok,
  ◌>>=◌,
}
use tech_p.Limiter.Caps.{SourceConcurrency, LimiterError, cap_for}

-- SourceState, with the operations that `waiter.operation()` has been called for, in order.
pub record Lane : Type 0 where
  pub active : ℕ
  pub waiters : List ℕ
  pub started : List ℕ

-- `{ active: 0, waiters: [] }`
abbrev pub fresh_lane : Lane
fresh_lane = record { active = 0; waiters = []; started = [] }

-- `states`: a source that is not in the map has a fresh lane.
abbrev pub Lanes : Type 0
Lanes = Text → Lane

abbrev pub no_lanes : Lanes
no_lanes source = fresh_lane

abbrev pub with_lane : Text → Lane → Lanes → Lanes
with_lane source lane lanes key = if eq_text source key then lane else lanes key

-- The loop of `drain`: operations start from the head of the queue while the cap allows it.
unfoldable pub drain_from : ℕ → ℕ → List ℕ → List ℕ → Lane
drain_from cap active [] started = record { active = active; waiters = []; started = started }
drain_from cap active (w ∷ ws) started =
    let rest = drain_from cap (active + 1) ws (started ++ w ∷ []) in
    if ltb active cap then rest else record { active = active; waiters = w ∷ ws; started = started }

unfoldable pub drain : ℕ → Lane → Lane
unfolding drain_from
drain cap lane = drain_from cap lane.active lane.waiters lane.started

-- `state.waiters.push(…)`, then `drain`
unfoldable pub push_waiter : ℕ → ℕ → Lane → Lane
unfolding drain
push_waiter cap operation lane =
    drain cap (record lane { waiters = lane.waiters ++ operation ∷ [] })

-- The `finally` of an operation that has settled.
unfoldable pub finish_one : ℕ → Lane → Lane
unfolding drain
finish_one cap lane = drain cap (record lane { active = lane.active - 1 })

unfoldable pub run : SourceConcurrency → Num → Text → ℕ → Lanes → Result LimiterError Lanes
unfolding push_waiter cap_for
run caps fallback source operation lanes = do
  cap ← cap_for source caps fallback
  ok (with_lane source (push_waiter cap operation (lanes source)) lanes)

-- The reachable states, with the operations that were submitted for each source, in order: a call of
-- `run` that does not throw, or the end of an operation that runs.
abbrev pub Submitted : Type 0
Submitted = Text → List ℕ

abbrev pub submit : Text → ℕ → Submitted → Submitted
submit source operation subs key =
    if eq_text source key then subs key ++ operation ∷ [] else subs key

pub data Reached (caps : SourceConcurrency) (fallback : Num) : Submitted → Lanes → Type 0 where
  start : Reached caps fallback (λ key. []) no_lanes
  submits :
      (source : Text) (operation : ℕ) {subs : Submitted} {lanes lanes' : Lanes}
      → Reached caps fallback subs lanes
      → run caps fallback source operation lanes ≡ ok lanes'
      → Reached caps fallback (submit source operation subs) lanes'
  ends :
      (source : Text) (cap : ℕ) {subs : Submitted} {lanes : Lanes}
      → Reached caps fallback subs lanes
      → cap_for source caps fallback ≡ ok cap
      → 0 < (lanes source).active
      → Reached caps fallback subs (with_lane source (finish_one cap (lanes source)) lanes)
