-- ===== src/Abuse/Bounds.antt =====
-- What the limiters of apps/api/src/abuse-controls.ts let through.
use tech_p.Base.{
  ℕ, ◌+◌, ◌-◌, ◌≤◌, min, ◌≡◌, refl, sym, ◌∙◌, ap, Bool, true, false, not, ◌&&◌, ◌||◌, Option, none,
  some, List, [], ◌∷◌, arith, if◌then◌else◌, leb, ltb, find, keep_if, find_sound, Text, eq_text,
  eq_text_refl, eq_text_sound, Bool-cases, inl, inr,
}
use tech_p.Abuse.Limits.{
  Hit, RateLimiter, find_hit, set_hit, check_hit, check, Concurrency, try_acquire, release,
}

-- Of requests, each a key and a time, those of one key that are allowed.
unfoldable pub allowed_among : Text → List (Text × ℕ) → RateLimiter → ℕ
allowed_among key [] l = 0
allowed_among key ((k, now) ∷ requests) l =
    let rest = allowed_among key requests (check k none none now l).1 in
    if eq_text k key && (check k none none now l).0.allowed then rest + 1 else rest

-- How many of them are of the key.
unfoldable pub requests_of : Text → List (Text × ℕ) → ℕ
requests_of key [] = 0
requests_of key ((k, now) ∷ requests) =
    let rest = requests_of key requests in if eq_text k key then rest + 1 else rest

-- Those of the key come before `end`; others come at any time.
unfoldable pub all_before : Text → ℕ → List (Text × ℕ) → Bool
all_before key end [] = true
all_before key end ((k, now) ∷ requests) =
    (not (eq_text k key) || ltb now end) && all_before key end requests

find_set : (hit : Hit) (l : RateLimiter) → find_hit hit.key (set_hit hit l).hits ≡ some hit
unfolding find
find_set hit l = rw (eq_text_refl hit.key) refl

find-keep_others :
    (key other : Text) (hits : List Hit)
    → eq_text other key ≡ false
    → find_hit key (keep_if (λ (h : Hit). not (eq_text h.key other)) hits) ≡ find_hit key hits
unfolding find keep_if
find-keep_others key other [] differ = refl
find-keep_others key other (h ∷ hits) differ = elim (Bool-cases (eq_text h.key key)) [
  | inl hit ↦
      let same : h.key ≡ key = eq_text_sound h.key key hit in
      let kept : eq_text h.key other ≡ false = elim (Bool-cases (eq_text h.key other)) [
        | inl clash ↦
            let both : h.key ≡ other = eq_text_sound h.key other clash in
            let equal : eq_text other key ≡ true = ap (λ t. eq_text t key) (sym both) ∙ hit in
            absurd cc
        | inr apart ↦ apart
      ] in
      rw (kept, hit) refl
  | inr miss ↦ elim (Bool-cases (eq_text h.key other)) [
    | inl dropped ↦ rw (dropped, miss) (find-keep_others key other hits differ)
    | inr kept ↦ rw (kept, miss) (find-keep_others key other hits differ)
  ]
]

find-set_other :
    (key : Text) (hit : Hit) (l : RateLimiter)
    → eq_text hit.key key ≡ false
    → find_hit key (set_hit hit l).hits ≡ find_hit key l.hits
unfolding find
find-set_other key hit l differ = rw differ (find-keep_others key hit.key l.hits differ)

-- A request of another key leaves the key's window and the maximum as they are.
check_other :
    (key k : Text) (now : ℕ) (l : RateLimiter)
    → eq_text k key ≡ false
    → (find_hit key (check k none none now l).1.hits ≡ find_hit key l.hits)
      × ((check k none none now l).1.max_requests ≡ l.max_requests)
      × ((check k none none now l).1.window_ms ≡ l.window_ms)
unfolding check
check_other key k now l differ = go (find_hit k l.hits) refl
  where
    go :
        (o : Option Hit)
        → find_hit k l.hits ≡ o
        → (find_hit key (check_hit o k l.max_requests l.window_ms now l).1.hits
            ≡ find_hit key l.hits)
          × ((check_hit o k l.max_requests l.window_ms now l).1.max_requests ≡ l.max_requests)
          × ((check_hit o k l.max_requests l.window_ms now l).1.window_ms ≡ l.window_ms)
    go none e = (
      find-set_other key (record { key = k; count = 1; reset_at = now + l.window_ms }) l differ,
      refl,
      refl,
    )
    go (some hit) e = elim (Bool-cases (leb hit.reset_at now)) [
      | inl closed ↦ rw closed (
        find-set_other key (record { key = k; count = 1; reset_at = now + l.window_ms }) l differ,
        refl,
        refl,
      )
      | inr holds ↦
          let found = find_sound (λ (h : Hit). eq_text h.key k) l.hits hit e in
          let same : hit.key ≡ k = eq_text_sound hit.key k found in
          rw holds (
            find-set_other key (record hit { count = hit.count + 1 }) l
                (ap (λ t. eq_text t key) same ∙ differ),
            refl,
            refl,
          )
    ]

-- In a window that is open, as many more are allowed as the maximum leaves.
open_window-allows :
    (key : Text) (requests : List (Text × ℕ)) (l : RateLimiter) (hit : Hit)
    → find_hit key l.hits ≡ some hit
    → hit.key ≡ key
    → all_before key hit.reset_at requests ≡ true
    → allowed_among key requests l ≡ min (l.max_requests - hit.count) (requests_of key requests)
unfolding allowed_among requests_of all_before check
open_window-allows key [] l hit e k b = omega arith
open_window-allows key ((other, now) ∷ requests) l hit e k b =
    elim (Bool-cases (eq_text other key)) [
      | inl own ↦
          let early : ltb now hit.reset_at ≡ true = ground arith in
          let closed : leb hit.reset_at now ≡ false = ground arith in
          let next : Hit = record hit { count = hit.count + 1 } in
          let later =
            open_window-allows key requests (set_hit next l) next
              (ap (λ n. find_hit n (set_hit next l).hits) (sym k) ∙ find_set next l) k
              (ground arith) in
          let found : find_hit other l.hits ≡ some hit =
            ap (λ t. find_hit t l.hits) (eq_text_sound other key own) ∙ e in
          rw (found, own, closed) (ground arith)
      | inr differ ↦
          let (kept, same, _) = check_other key other now l differ in
          let later =
            open_window-allows key requests (check other none none now l).1 hit (kept ∙ e) k
              (ground arith) in
          rw differ (later ∙ ap (λ n. min (n - hit.count) (requests_of key requests)) same)
    ]

-- Where the key has no window, its first request opens one. Of the requests of the key that come before this
-- closes, with those of other keys at any time between, the first are allowed, up to the maximum, and no
-- more, if the maximum is at least one.
pub window_allows_maximum :
    (key : Text) (first : ℕ) (requests : List (Text × ℕ)) (l : RateLimiter)
    → find_hit key l.hits ≡ none
    → 1 ≤ l.max_requests
    → all_before key (first + l.window_ms) requests ≡ true
    → allowed_among key ((key, first) ∷ requests) l
      ≡ min l.max_requests (requests_of key requests + 1)
unfolding allowed_among check
window_allows_maximum key first requests l e one b =
    let hit : Hit = record { key = key; count = 1; reset_at = first + l.window_ms } in
    let later = open_window-allows key requests (set_hit hit l) hit (find_set hit l) refl b in
    let own = eq_text_refl key in rw (e, own) (omega arith)

try_acquire-keeps :
    (c : Concurrency)
    → c.active ≤ c.max_concurrent
    → ((try_acquire c).1.active ≤ (try_acquire c).1.max_concurrent)
      × ((try_acquire c).1.max_concurrent ≡ c.max_concurrent)
unfolding try_acquire
try_acquire-keeps c h = elim (Bool-cases (leb c.max_concurrent c.active)) [
  | inl full ↦ rw full (h, refl)
  | inr free ↦ rw free (ground arith, refl)
]

release-keeps :
    (c : Concurrency)
    → c.active ≤ c.max_concurrent
    → ((release c).active ≤ (release c).max_concurrent)
      × ((release c).max_concurrent ≡ c.max_concurrent)
unfolding release
release-keeps c h = elim (Bool-cases (ltb 0 c.active)) [
  | inl held ↦ rw held (omega arith, refl)
  | inr idle ↦ rw idle (h, refl)
]

pub data SlotCall : Type 0 where
  acquire give_back : SlotCall

unfoldable pub slot_calls : List SlotCall → Concurrency → Concurrency
slot_calls [] c = c
slot_calls (SlotCall.acquire ∷ cs) c = slot_calls cs (try_acquire c).1
slot_calls (SlotCall.give_back ∷ cs) c = slot_calls cs (release c)

-- No sequence of acquisitions and releases, matched or not, takes a limiter that is not over its maximum
-- over it.
pub active_at_most :
    (cs : List SlotCall) (c : Concurrency)
    → c.active ≤ c.max_concurrent
    → (slot_calls cs c).active ≤ c.max_concurrent
unfolding slot_calls
active_at_most [] c h = h
active_at_most (SlotCall.acquire ∷ cs) c h =
    let (small, same) = try_acquire-keeps c h in
    let rest = active_at_most cs (try_acquire c).1 small in omega arith
active_at_most (SlotCall.give_back ∷ cs) c h =
    let (small, same) = release-keeps c h in
    let rest = active_at_most cs (release c) small in omega arith
