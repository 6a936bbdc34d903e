-- ===== src/Limiter/Within.antt =====
-- How many leases the table of apps/worker/src/concurrency.ts holds.
use tech_p.Base.{
  ℕ, suc, ◌+◌, ◌≤◌, ◌≡◌, refl, ap, Bool, true, not, List, [], ◌∷◌, arith, leb, ◌==◌, Bool-cases,
  inl, inr, length, length-append, keep_if, update_where,
}
use tech_p.Limiter.Leases.{
  Lease, has_token, put_token, unexpired, LeaseCall, lease_call, lease_calls,
}

pub length-keep_if-le :
    (p : Lease → Bool) (rows : List Lease) → length (keep_if p rows) ≤ length rows
unfolding keep_if
length-keep_if-le p [] = omega arith
length-keep_if-le p (r ∷ rs) = ground (arith, length-keep_if-le p rs)

length-update_where :
    (p : Lease → Bool) (g : Lease → Lease) (rows : List Lease)
    → length (update_where p g rows) ≡ length rows
unfolding update_where
length-update_where p g [] = refl
length-update_where p g (r ∷ rs) = ap suc (length-update_where p g rs)

length-put_token-le :
    (token expires : ℕ) (rows : List Lease)
    → length (put_token token expires rows) ≤ length rows + 1
unfolding put_token
length-put_token-le token expires rows = elim (Bool-cases (has_token token rows)) [
  | inl old ↦ rw old (
      let same =
        length-update_where (λ r. r.token == token) (λ r. record r { expires = expires }) rows in
      omega arith)
  | inr new ↦ rw new (
      let more = length-append rows (record { token = token; expires = expires } ∷ []) in
      omega arith)
]

length-put_token_old :
    (token expires : ℕ) (rows : List Lease)
    → has_token token rows ≡ true
    → length (put_token token expires rows) ≡ length rows
unfolding put_token
length-put_token_old token expires rows old =
    rw old (length-update_where (λ r. r.token == token) (λ r. record r { expires = expires }) rows)

module _ (cap lease_ms : ℕ) where
  lease_call-within :
      (c : LeaseCall) (rows : List Lease)
      → length rows ≤ cap
      → length (lease_call cap lease_ms c rows) ≤ cap
  unfolding lease_call
  lease_call-within (LeaseCall.acquires token now) rows h = ground (
    arith,
    length-keep_if-le (λ r. not (leb r.expires now)) rows,
    length-put_token-le token (now + lease_ms) (unexpired now rows),
  )
  lease_call-within (LeaseCall.renews token now) rows h =
      ground (arith, length-put_token_old token (now + lease_ms) rows)
  lease_call-within (LeaseCall.releases token) rows h =
      ground (arith, length-keep_if-le (λ r. not (r.token == token)) rows)

  pub lease_calls-within :
      (cs : List LeaseCall) (rows : List Lease)
      → length rows ≤ cap
      → length (lease_calls cap lease_ms cs rows) ≤ cap
  unfolding lease_calls
  lease_calls-within [] rows h = h
  lease_calls-within (c ∷ cs) rows h =
      lease_calls-within cs (lease_call cap lease_ms c rows) (lease_call-within c rows h)
