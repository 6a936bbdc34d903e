-- ===== src/Limiter/Leases.antt =====
-- The leases of RedisSourceConcurrencyLimiter in apps/worker/src/concurrency.ts: its three scripts on the
-- hash of one source, and the run of an operation under a lease.
use tech_p.Base.{
  ℕ, suc, ◌+◌, ◌/◌, Bool, true, false, not, ◌||◌, Option, none, some, List, [], ◌∷◌, ◌++◌,
  if◌then◌else◌, ltb, leb, ◌==◌, length, any, keep_if, update_where, Result, ok, err, throw_if,
}
use tech_p.Limiter.Caps.{LimiterError, invalid_timing, capacity_unavailable}

-- A field of the hash: a token, and when its lease expires.
pub record Lease : Type 0 where
  pub token : ℕ
  pub expires : ℕ

-- `HEXISTS`, `HSET` and `HDEL`
unfoldable pub has_token : ℕ → List Lease → Bool
has_token token rows = any (λ r. r.token == token) rows

unfoldable pub put_token : ℕ → ℕ → List Lease → List Lease
unfolding has_token
put_token token expires rows =
    if has_token token rows
    then update_where (λ r. r.token == token) (λ r. record r { expires = expires }) rows
    else rows ++ record { token = token; expires = expires } ∷ []

unfoldable pub drop_token : ℕ → List Lease → List Lease
drop_token token rows = keep_if (λ r. not (r.token == token)) rows

-- The loop of ACQUIRE_SCRIPT deletes what has expired.
unfoldable pub unexpired : ℕ → List Lease → List Lease
unexpired now rows = keep_if (λ r. not (leb r.expires now)) rows

-- ACQUIRE_SCRIPT
unfoldable pub acquire : ℕ → ℕ → ℕ → ℕ → List Lease → Bool × List Lease
unfolding unexpired put_token
acquire token cap now lease_ms rows =
    if leb cap (length (unexpired now rows))
    then (false, unexpired now rows)
    else (true, put_token token (now + lease_ms) (unexpired now rows))

-- RENEW_SCRIPT
unfoldable pub renew : ℕ → ℕ → ℕ → List Lease → Bool × List Lease
unfolding put_token
renew token now lease_ms rows =
    if has_token token rows then (true, put_token token (now + lease_ms) rows) else (false, rows)

-- RELEASE_SCRIPT, which answers 1 whatever it deletes.
unfoldable pub release : ℕ → List Lease → Bool × List Lease
unfolding drop_token
release token rows = (true, drop_token token rows)

-- What any worker may ask for; every clock is its own.
pub data LeaseCall : Type 0 where
  acquires renews : ℕ → ℕ → LeaseCall
  releases : ℕ → LeaseCall

module _ (cap lease_ms : ℕ) where
  unfoldable pub lease_call : LeaseCall → List Lease → List Lease
  unfolding acquire renew release
  lease_call (LeaseCall.acquires token now) rows = (acquire token cap now lease_ms rows).1
  lease_call (LeaseCall.renews token now) rows = (renew token now lease_ms rows).1
  lease_call (LeaseCall.releases token) rows = (release token rows).1

  unfoldable pub lease_calls : List LeaseCall → List Lease → List Lease
  unfolding lease_call
  lease_calls [] rows = rows
  lease_calls (c ∷ cs) rows = lease_calls cs (lease_call c rows)

-- The constructor's test of the timing.
unfoldable pub assert_timing : ℕ → ℕ → ℕ → Result LimiterError (Unit {0})
assert_timing lease_ms poll_ms timeout_ms =
    throw_if (ltb lease_ms 1000 || ltb poll_ms 1 || ltb timeout_ms poll_ms) invalid_timing

-- leaseRenewalIntervalMs
unfoldable pub renewal_interval : ℕ → ℕ
renewal_interval lease_ms = if ltb (lease_ms / 3) 100 then 100 else lease_ms / 3

-- The polling loop of `run`, on fuel: what the script answers at each poll, and what the clock reads when
-- the deadline is tested. The result is the number of the poll that was granted.
unfoldable pub poll : ℕ → (ℕ → Bool) → (ℕ → ℕ) → ℕ → ℕ → Option (Result LimiterError ℕ)
poll Prim.Native.Nat.zero answers clock deadline i = none
poll (suc fuel) answers clock deadline i =
    let rest = poll fuel answers clock deadline (i + 1) in
    if answers i
    then some (ok i)
    else (if leb deadline (clock i) then some (err capacity_unavailable) else rest)

-- The end of `run`: the operation's result, the failure of a renewal, and the failure of the release.
unfoldable pub conclude :
    Result LimiterError ℕ → Option LimiterError → Option LimiterError → Result LimiterError ℕ
conclude (err e) renewal released = err e
conclude (ok value) (some failure) released = err failure
conclude (ok value) none (some failure) = err failure
conclude (ok value) none none = ok value
