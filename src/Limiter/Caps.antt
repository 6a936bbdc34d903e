-- ===== src/Limiter/Caps.antt =====
-- capForSource of apps/worker/src/concurrency.ts.
use tech_p.Base.{
  ℕ, ◌≤◌, ◌≡◌, ◌&&◌, Option, none, some, List, [], ◌∷◌, arith, if◌then◌else◌, leb, Num, safe_nat,
  Text, eq_text, Result, ok, need, need-eq-ok,
}

-- A number for every source, or numbers for some.
pub data SourceConcurrency : Type 0 where
  uniform : Num → SourceConcurrency
  by_source : List (Text × Num) → SourceConcurrency

pub data LimiterError : Type 0 where
  invalid_cap invalid_timing capacity_unavailable : LimiterError
  ownership_lost renewal_failed release_failed operation_failed : LimiterError

-- `caps[sourceKey] ?? fallback`
unfoldable pub cap_or : Text → List (Text × Num) → Num → Num
cap_or source [] fallback = fallback
cap_or source ((key, cap) ∷ rest) fallback =
    if eq_text key source then cap else cap_or source rest fallback

abbrev pub configured : Text → SourceConcurrency → Num → Num
configured source (uniform cap) fallback = cap
configured source (by_source caps) fallback = cap_or source caps fallback

-- `Number.isSafeInteger(cap) && 1 <= cap && cap <= 100`, with the value
abbrev pub allowed_cap : Option ℕ → Option ℕ
allowed_cap none = none
allowed_cap (some n) = if leb 1 n && leb n 100 then some n else none

unfoldable pub cap_for : Text → SourceConcurrency → Num → Result LimiterError ℕ
unfolding cap_or
cap_for source caps fallback =
    need (allowed_cap (safe_nat (configured source caps fallback))) invalid_cap

pub cap_for-pos :
    (source : Text) (caps : SourceConcurrency) (fallback : Num) (n : ℕ)
    → cap_for source caps fallback ≡ ok n
    → (1 ≤ n) × (n ≤ 100)
unfolding cap_for
cap_for-pos source caps fallback n e =
    inside (safe_nat (configured source caps fallback))
      (need-eq-ok (allowed_cap (safe_nat (configured source caps fallback))) invalid_cap e)
  where
    inside : (o : Option ℕ) → allowed_cap o ≡ some n → (1 ≤ n) × (n ≤ 100)
    inside none h = cc
    inside (some m) h = ground arith
