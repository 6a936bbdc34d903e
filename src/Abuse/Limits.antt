-- ===== src/Abuse/Limits.antt =====
-- MemoryRateLimiter, ConcurrencyLimiter and DailyBudgetTracker of apps/api/src/abuse-controls.ts. What
-- the clock reads is an argument.
use tech_p.Base.{
  ℕ, ◌+◌, ◌-◌, ◌/◌, Bool, true, false, not, Option, none, some, List, ◌∷◌, if◌then◌else◌, leb, ltb,
  ◌==◌, max, find, keep_if, Text, eq_text, get_or_else,
}

-- The map of the rate limiter, with its defaults.
pub record Hit : Type 0 where
  pub key : Text
  pub count : ℕ
  pub reset_at : ℕ

pub record RateLimiter : Type 0 where
  pub window_ms : ℕ
  pub max_requests : ℕ
  pub hits : List Hit

pub record Verdict : Type 0 where
  pub allowed : Bool
  pub limit : ℕ
  pub remaining : ℕ
  pub reset : ℕ

abbrev pub find_hit : Text → List Hit → Option Hit
find_hit key hits = find (λ h. eq_text h.key key) hits

-- `hits.set(key, hit)`
abbrev pub set_hit : Hit → RateLimiter → RateLimiter
set_hit hit l = record l { hits = hit ∷ keep_if (λ h. not (eq_text h.key hit.key)) l.hits }

-- `Math.max(1, Math.ceil((resetAt - now) / 1000))`
abbrev pub reset_seconds : ℕ → ℕ → ℕ
reset_seconds reset_at now = max 1 ((reset_at - now + 999) / 1000)

abbrev pub opened_window : Text → ℕ → ℕ → ℕ → RateLimiter → Verdict × RateLimiter
opened_window key limit window now l = (
  record {
    allowed = true;
    limit = limit;
    remaining = limit - 1;
    reset = reset_seconds (now + window) now;
  },
  set_hit (record { key = key; count = 1; reset_at = now + window }) l,
)

abbrev pub counted : Hit → ℕ → ℕ → RateLimiter → Verdict × RateLimiter
counted hit limit now l = (
  record {
    allowed = leb (hit.count + 1) limit;
    limit = limit;
    remaining = if ltb limit (hit.count + 1) then 0 else limit - (hit.count + 1);
    reset = reset_seconds hit.reset_at now;
  },
  set_hit (record hit { count = hit.count + 1 }) l,
)

abbrev pub check_hit : Option Hit → Text → ℕ → ℕ → ℕ → RateLimiter → Verdict × RateLimiter
check_hit none key limit window now l = opened_window key limit window now l
check_hit (some hit) key limit window now l =
    if leb hit.reset_at now then opened_window key limit window now l else counted hit limit now l

-- check, with the maximum and the window that a caller may give
unfoldable pub check : Text → Option ℕ → Option ℕ → ℕ → RateLimiter → Verdict × RateLimiter
check key custom_max custom_window now l =
    check_hit (find_hit key l.hits) key (get_or_else custom_max l.max_requests)
      (get_or_else custom_window l.window_ms) now l

pub record Concurrency : Type 0 where
  pub max_concurrent : ℕ
  pub active : ℕ

unfoldable pub try_acquire : Concurrency → Bool × Concurrency
try_acquire c =
    if leb c.max_concurrent c.active then (false, c) else (true, record c { active = c.active + 1 })

unfoldable pub release : Concurrency → Concurrency
release c = if ltb 0 c.active then record c { active = c.active - 1 } else c

-- A day is the number of days since the epoch; none is the empty text that the tracker starts with.
pub record DailyTracker : Type 0 where
  pub max_daily : ℕ
  pub consumed : ℕ
  pub day : Option ℕ

abbrev same_day : Option ℕ → ℕ → Bool
same_day none d = false
same_day (some e) d = e == d

abbrev pub on_day : ℕ → DailyTracker → DailyTracker
on_day d t = if same_day t.day d then t else record t { day = some d; consumed = 0 }

unfoldable pub try_consume : ℕ → ℕ → DailyTracker → Bool × DailyTracker
try_consume count now t =
    let today = on_day (now / 86400000) t in
    if ltb today.max_daily (today.consumed + count)
    then (false, today)
    else (true, record today { consumed = today.consumed + count })
