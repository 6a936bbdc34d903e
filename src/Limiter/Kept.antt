-- ===== src/Limiter/Kept.antt =====
-- What the leases of apps/worker/src/concurrency.ts guarantee across workers.
use mathlib.Core.Option
use tech_p.Base.{
  ℕ, suc, ◌+◌, ◌≤◌, ◌<◌, ◌≡◌, ◌≢◌, refl, ◌∙◌, ap, Bool, true, not, Option, some, List, [], ◌∷◌,
  arith, if◌then◌else◌, leb, ◌==◌, Bool-cases, inl, inr, length, find, keep_if, update_where, All,
  find-append_old, find-update_where, find_sound, Result, ok, err,
}
use tech_p.Limiter.Caps.{LimiterError, capacity_unavailable}
use tech_p.Limiter.Leases.{
  Lease, has_token, put_token, drop_token, unexpired, LeaseCall, lease_call, lease_calls, poll,
}
use tech_p.Limiter.Within.{length-keep_if-le, lease_calls-within}

abbrev pub lease_of : ℕ → List Lease → Option Lease
lease_of token rows = find (λ r. r.token == token) rows

-- A filter that keeps the lease of a token.
find-keep_if :
    (p : Lease → Bool) (token : ℕ) (rows : List Lease) (r : Lease)
    → lease_of token rows ≡ some r
    → p r ≡ true
    → lease_of token (keep_if p rows) ≡ some r
unfolding find keep_if
find-keep_if p token [] r e h = cc
find-keep_if p token (x ∷ xs) r e h = ground (arith, find-keep_if p token xs r)

find-put_token :
    (other token expires : ℕ) (rows : List Lease) (r : Lease)
    → lease_of token rows ≡ some r
    → other ≢ token
    → lease_of token (put_token other expires rows) ≡ some r
unfolding put_token
find-put_token other token expires rows r e h = elim (Bool-cases (has_token other rows)) [
  | inl old ↦ rw old (law ∙ (ap (Option.map change) e ∙ ap some left))
  | inr new ↦ rw new (
      find-append_old (λ x. x.token == token) rows
        (record { token = other; expires = expires } ∷ []) r e)
]
  where
    change : Lease → Lease
    change x = if x.token == other then record x { expires = expires } else x

    law :
        lease_of token
          (update_where (λ x. x.token == other) (λ x. record x { expires = expires }) rows)
        ≡ Option.map change (lease_of token rows)
    law =
        find-update_where (λ x. x.token == token) (λ x. x.token == other)
          (λ x. record x { expires = expires }) rows (λ x. refl)

    left : change r ≡ r
    left = ground (arith, find_sound (λ (x : Lease). x.token == token) rows r e)

-- A call of another worker, by a clock that has not reached the time.
abbrev pub Foreign : ℕ → ℕ → LeaseCall → Type 0
Foreign token time (LeaseCall.acquires other now) = (other ≢ token) × (now < time)
Foreign token time (LeaseCall.renews other now) = other ≢ token
Foreign token time (LeaseCall.releases other) = other ≢ token

token_of :
    (token : ℕ) (rows : List Lease) (r : Lease) → lease_of token rows ≡ some r → r.token ≡ token
token_of token rows r e = ground (arith, find_sound (λ (x : Lease). x.token == token) rows r e)

module _ (cap lease_ms : ℕ) where
  lease_call-kept :
      (c : LeaseCall) (token : ℕ) (rows : List Lease) (r : Lease)
      → lease_of token rows ≡ some r
      → Foreign token r.expires c
      → lease_of token (lease_call cap lease_ms c rows) ≡ some r
  unfolding lease_call
  lease_call-kept (LeaseCall.acquires other now) token rows r e foreign =
      let live : lease_of token (unexpired now rows) ≡ some r =
        find-keep_if (λ x. not (leb x.expires now)) token rows r e (ground arith) in
      elim (Bool-cases (leb cap (length (unexpired now rows)))) [
        | inl full ↦ rw (full, lease_call) live
        | inr room ↦
            rw (room, lease_call)
              (find-put_token other token (now + lease_ms) (unexpired now rows) r live foreign.0)
      ]
  lease_call-kept (LeaseCall.renews other now) token rows r e foreign =
      let put = find-put_token other token (now + lease_ms) rows r e foreign in
      elim (Bool-cases (has_token other rows)) [
        | inl there ↦ rw (there, lease_call) (rw (there, put_token) at put)
        | inr gone ↦ rw (gone, lease_call) e
      ]
  lease_call-kept (LeaseCall.releases other) token rows r e foreign =
      let named = token_of token rows r e in
      find-keep_if (λ x. not (x.token == other)) token rows r e (ground arith)

  -- A lease that a worker holds is there, unchanged, after any calls of other workers under other tokens,
  -- granted or not, none of whose clocks reads its expiry or a later time when it acquires.
  pub live_lease_is_kept :
      (cs : List LeaseCall) (token : ℕ) (rows : List Lease) (r : Lease)
      → lease_of token rows ≡ some r
      → All (Foreign token r.expires) cs
      → lease_of token (lease_calls cap lease_ms cs rows) ≡ some r
  unfolding lease_calls
  live_lease_is_kept [] token rows r e foreign = e
  live_lease_is_kept (c ∷ cs) token rows r e foreign =
      live_lease_is_kept cs token (lease_call cap lease_ms c rows) r
        (lease_call-kept c token rows r e foreign.0) foreign.1

abbrev pub Held : List Lease → ℕ → Type 0
Held rows token = (r : Lease) × (lease_of token rows ≡ some r)

abbrev pub Distinct : List ℕ → Type 0
Distinct [] = Unit
Distinct (t ∷ ts) = All (λ u. u ≢ t) ts × Distinct ts

drop_token-shorter :
    (token : ℕ) (rows : List Lease) (r : Lease)
    → lease_of token rows ≡ some r
    → length (drop_token token rows) < length rows
unfolding find drop_token keep_if
drop_token-shorter token [] r e = cc
drop_token-shorter token (x ∷ xs) r e =
    ground
      (arith, length-keep_if-le (λ y. not (y.token == token)) xs, drop_token-shorter token xs r)

Held-drop :
    (token : ℕ) (rows : List Lease) (ts : List ℕ)
    → All (λ u. u ≢ token) ts
    → All (Held rows) ts
    → All (Held (drop_token token rows)) ts
unfolding drop_token
Held-drop token rows [] other held = tt
Held-drop token rows (t ∷ ts) other held =
    let (r, e) = held.0 in
    let named = token_of t rows r e in
    let differs = other.0 in
    (
      (r, find-keep_if (λ x. not (x.token == token)) t rows r e (ground arith)),
      Held-drop token rows ts other.1 held.1,
    )

length-holders-le :
    (ts : List ℕ) (rows : List Lease) → Distinct ts → All (Held rows) ts → length ts ≤ length rows
length-holders-le [] rows distinct held = omega arith
length-holders-le (t ∷ ts) rows distinct held =
    let (r, e) = held.0 in
    let shorter = drop_token-shorter t rows r e in
    let rest =
      length-holders-le ts (drop_token t rows) distinct.1 (Held-drop t rows ts distinct.0 held.1) in
    omega arith

-- From a hash that holds no more leases than the cap, such as the empty one, and after any calls of any
-- workers by any clocks, no more tokens than the cap hold a lease of the source.
pub holders_within_cap :
    (cap lease_ms : ℕ) (cs : List LeaseCall) (rows : List Lease) (holders : List ℕ)
    → length rows ≤ cap
    → Distinct holders
    → All (Held (lease_calls cap lease_ms cs rows)) holders
    → length holders ≤ cap
holders_within_cap cap lease_ms cs rows holders h distinct held =
    let within = lease_calls-within cap lease_ms cs rows h in
    let counted = length-holders-le holders (lease_calls cap lease_ms cs rows) distinct held in
    omega arith

-- Waiting for a lease ends: if each poll finds the clock later than the one before, then with a unit of
-- fuel for each millisecond up to the deadline and one more, a poll is granted or the run fails with
-- capacity_unavailable.
pub poll_ends :
    (fuel : ℕ) (answers : ℕ → Bool) (clock : ℕ → ℕ) (deadline i : ℕ)
    → ((k : ℕ) → clock k < clock (k + 1))
    → deadline ≤ clock i + fuel
    → (r : Result LimiterError ℕ) × (poll (suc fuel) answers clock deadline i ≡ some r)
unfolding poll
poll_ends Prim.Native.Nat.zero answers clock deadline i ticks enough =
    let late : leb deadline (clock i) ≡ true = ground arith in
    elim (Bool-cases (answers i)) [
      | inl granted ↦ (ok i, rw (granted, poll) refl)
      | inr refused ↦ (err capacity_unavailable, rw (refused, poll) (rw (late, poll) refl))
    ]
poll_ends (suc fuel) answers clock deadline i ticks enough = elim (Bool-cases (answers i)) [
  | inl granted ↦ (ok i, rw (granted, poll) refl)
  | inr refused ↦ elim (Bool-cases (leb deadline (clock i))) [
    | inl late ↦ (err capacity_unavailable, rw (refused, poll) (rw (late, poll) refl))
    | inr early ↦
        let later = ticks i in
        let (r, e) = poll_ends fuel answers clock deadline (i + 1) ticks (omega arith) in
        (r, rw (refused, poll) (rw (early, poll) e))
  ]
]
