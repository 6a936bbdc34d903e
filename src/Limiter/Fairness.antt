-- ===== src/Limiter/Fairness.antt =====
-- The lanes of the in-memory limiter of apps/worker/src/concurrency.ts: their cap, their capacity while
-- operations wait, and the order of starts.
use mathlib.Core.Path.{subst}
use mathlib.Core.List.{append-nil, append_assoc}
use tech_p.Base.{
  ℕ, suc, ◌+◌, ◌-◌, ◌≤◌, ◌<◌, ◌≡◌, refl, sym, ◌∙◌, ap, ◌⊎◌, inl, inr, true, false, List, [], ◌∷◌,
  ◌++◌, arith, ltb, Bool-cases, length, Num, Text, eq_text, eq_text_iff, ok, bind-eq-ok,
  ok_injective,
}
use tech_p.Limiter.Caps.{SourceConcurrency, cap_for, cap_for-pos}
use tech_p.Limiter.Lanes.{
  Lane, Lanes, with_lane, drain_from, push_waiter, finish_one, run, Submitted, submit, Reached,
}

-- A lane under a cap, given the operations that were submitted to it.
pub record IsFair (cap : ℕ) (submitted : List ℕ) (lane : Lane) : Type 0 where
  pub within : lane.active ≤ cap
  pub busy : (lane.waiters ≡ []) ⊎ (lane.active ≡ cap)
  pub in_order : lane.started ++ lane.waiters ≡ submitted

drain_from-IsFair :
    (cap active : ℕ) (waiters started : List ℕ)
    → active ≤ cap
    → IsFair cap (started ++ waiters) (drain_from cap active waiters started)
unfolding drain_from
drain_from-IsFair cap active [] started h = record { within = h; busy = inl refl; in_order = refl }
drain_from-IsFair cap active (w ∷ ws) started h = elim (Bool-cases (ltb active cap)) [
  | inl room ↦ rw room (
      subst (λ l. IsFair cap l (drain_from cap (active + 1) ws (started ++ w ∷ [])))
        (append_assoc started (w ∷ []) ws)
        (drain_from-IsFair cap (active + 1) ws (started ++ w ∷ []) (ground arith)))
  | inr full ↦ rw full (record { within = h; busy = inr (ground arith); in_order = refl })
]

push_waiter-IsFair :
    (cap operation : ℕ) (submitted : List ℕ) (lane : Lane)
    → IsFair cap submitted lane
    → IsFair cap (submitted ++ operation ∷ []) (push_waiter cap operation lane)
unfolding push_waiter
push_waiter-IsFair cap operation submitted lane f =
    subst (λ l. IsFair cap l (push_waiter cap operation lane))
      (sym (append_assoc lane.started lane.waiters (operation ∷ []))
        ∙ ap (λ l. l ++ operation ∷ []) f.in_order)
      (drain_from-IsFair cap lane.active (lane.waiters ++ operation ∷ []) lane.started f.within)

pub finish_one-IsFair :
    (cap : ℕ) (submitted : List ℕ) (lane : Lane)
    → IsFair cap submitted lane
    → IsFair cap submitted (finish_one cap lane)
unfolding finish_one
finish_one-IsFair cap submitted lane f =
    subst (λ l. IsFair cap l (finish_one cap lane)) f.in_order
      (drain_from-IsFair cap (lane.active - 1) lane.waiters lane.started
        (let h = f.within in omega arith))

module _ (caps : SourceConcurrency) (fallback : Num) where
  -- The lane of a source, after the lane of another one or of the same changed.
  changed_lane :
      (source key : Text) (cap : ℕ) (submitted : List ℕ) (lane : Lane) (lanes : Lanes)
      → (source ≡ key → IsFair cap submitted lane)
      → (eq_text source key ≡ false → IsFair cap submitted (lanes key))
      → IsFair cap submitted (with_lane source lane lanes key)
  changed_lane source key cap submitted lane lanes this other =
      elim (Bool-cases (eq_text source key)) [
        | inl same ↦ rw same (this ((eq_text_iff source key).0 same))
        | inr differs ↦ rw differs (other differs)
      ]

  same_cap :
      (source key : Text) (n cap : ℕ)
      → cap_for source caps fallback ≡ ok n
      → cap_for key caps fallback ≡ ok cap
      → source ≡ key
      → n ≡ cap
  same_cap source key n cap e f same =
      ok_injective (sym e ∙ (ap (λ (k : Text). cap_for k caps fallback) same ∙ f))

  -- Before an event at a source, seen through the key of that source.
  at_source :
      (source key : Text) (n cap : ℕ) (submitted : List ℕ) (lanes : Lanes) (event : ℕ → Lane → Lane)
      (after : List ℕ)
      → source ≡ key
      → n ≡ cap
      → IsFair cap submitted (lanes key)
      → ((lane : Lane) → IsFair cap submitted lane → IsFair cap after (event cap lane))
      → IsFair cap after (event n (lanes source))
  at_source source key n cap submitted lanes event after same caps_same before step =
      subst (λ c. IsFair cap after (event c (lanes source))) (sym caps_same)
        (step (lanes source) (subst (λ k. IsFair cap submitted (lanes k)) (sym same) before))

  submitted_lane :
      (source key : Text) (operation n cap : ℕ) (subs : Submitted) (lanes : Lanes)
      → cap_for source caps fallback ≡ ok n
      → cap_for key caps fallback ≡ ok cap
      → IsFair cap (subs key) (lanes key)
      → IsFair cap
          (submit source operation subs key)
          (with_lane source (push_waiter n operation (lanes source)) lanes key)
  submitted_lane source key operation n cap subs lanes e f before =
      elim (Bool-cases (eq_text source key)) [
        | inl hit ↦
            let same = (eq_text_iff source key).0 hit in
            rw hit (
              at_source source key n cap (subs key) lanes (λ c. push_waiter c operation)
                (subs key ++ operation ∷ []) same (same_cap source key n cap e f same) before
                (push_waiter-IsFair cap operation (subs key)))
        | inr differs ↦ rw differs before
      ]

  -- In every state that can be reached, by any submissions and ends of operations, a source has no more
  -- operations running than its cap; it runs as many as the cap while any wait; and those that started,
  -- followed by those that wait, are those that were submitted, in their order.
  pub lanes-IsFair :
      (subs : Submitted) (lanes : Lanes) (key : Text) (cap : ℕ)
      → Reached caps fallback subs lanes
      → cap_for key caps fallback ≡ ok cap
      → IsFair cap (subs key) (lanes key)
  unfolding run
  lanes-IsFair subs lanes key cap Reached.start f = record {
    within = omega arith;
    busy = inl refl;
    in_order = refl;
  }
  lanes-IsFair subs lanes key cap
        (Reached.submits source operation {subs = subs0} {lanes = lanes0} r e) f =
      let before = lanes-IsFair subs0 lanes0 key cap r f in
      let (n, g, e1) = bind-eq-ok (cap_for source caps fallback) _ e in
      subst (λ (l : Lanes). IsFair cap (submit source operation subs0 key) (l key))
        (ok_injective e1) (submitted_lane source key operation n cap subs0 lanes0 g f before)
  lanes-IsFair subs lanes key cap (Reached.ends source n {lanes = lanes0} r e pos) f =
      let before = lanes-IsFair subs lanes0 key cap r f in
      changed_lane source key cap (subs key) (finish_one n (lanes0 source)) lanes0
        (λ same.
          at_source source key n cap (subs key) lanes0 finish_one (subs key) same
            (same_cap source key n cap e f same) before (finish_one-IsFair cap (subs key)))
        (λ differs. before)

-- A number of operations end, one after the other.
unfoldable pub finish_times : ℕ → ℕ → Lane → Lane
finish_times cap Prim.Native.Nat.zero lane = lane
finish_times cap (suc k) lane = finish_times cap k (finish_one cap lane)

drain_full :
    (cap : ℕ) (ws started : List ℕ)
    → drain_from cap cap ws started ≡ record { active = cap; waiters = ws; started = started }
unfolding drain_from
drain_full cap [] started = refl
drain_full cap (w ∷ ws) started = ground arith

-- While operations wait, the end of one starts the first of them.
finish_one-head :
    (cap : ℕ) (lane : Lane) (w : ℕ) (ws : List ℕ)
    → 1 ≤ cap
    → lane.active ≡ cap
    → lane.waiters ≡ w ∷ ws
    → (finish_one cap lane).waiters ≡ ws
unfolding finish_one drain_from
finish_one-head cap lane w ws pos full queue =
    let one : lane.active - 1 + 1 ≡ cap = omega arith in
    let room : ltb (lane.active - 1) cap ≡ true = ground arith in
    rw queue (rw room (rw one (ap (λ (l : Lane). l.waiters) (drain_full cap ws _))))

finish_one-shorter :
    (cap k : ℕ) (submitted : List ℕ) (lane : Lane) (ws : List ℕ)
    → 1 ≤ cap
    → IsFair cap submitted lane
    → lane.waiters ≡ ws
    → length ws ≤ suc k
    → length (finish_one cap lane).waiters ≤ k
unfolding finish_one drain_from
finish_one-shorter cap k submitted lane [] pos f queue short = rw queue (omega arith)
finish_one-shorter cap k submitted lane (w ∷ ws) pos f queue short = elim f.busy [
  | inl empty ↦ let no : [] ≡ w ∷ ws = sym empty ∙ queue in cc
  | inr full ↦
      subst (λ l. length l ≤ k) (sym (finish_one-head cap lane w ws pos full queue)) (omega arith)
]

none_wait :
    (started waiters submitted : List ℕ)
    → started ++ waiters ≡ submitted
    → length waiters ≤ 0
    → started ≡ submitted
none_wait started [] submitted e short = sym (append-nil started) ∙ e
none_wait started (w ∷ ws) submitted e short = absurd (omega arith)

finish_times-drained :
    (cap : ℕ) (submitted : List ℕ) (k : ℕ) (lane : Lane)
    → 1 ≤ cap
    → IsFair cap submitted lane
    → length lane.waiters ≤ k
    → (finish_times cap k lane).started ≡ submitted
unfolding finish_times
finish_times-drained cap submitted Prim.Native.Nat.zero lane pos f short =
    none_wait lane.started lane.waiters submitted f.in_order short
finish_times-drained cap submitted (suc k) lane pos f short =
    finish_times-drained cap submitted k (finish_one cap lane) pos
      (finish_one-IsFair cap submitted lane f)
      (finish_one-shorter cap k submitted lane lane.waiters pos f refl short)

running :
    (cap : ℕ) (submitted : List ℕ) (lane : Lane)
    → 1 ≤ cap
    → IsFair cap submitted lane
    → (lane.waiters ≡ []) ⊎ (0 < lane.active)
running cap submitted lane pos f = elim f.busy [
  | inl empty ↦ inl empty
  | inr full ↦ inr (omega arith)
]

-- No operation waits for ever. In every state that can be reached, no operation of a source waits or one of
-- that source runs, so that it can end; and once as many have ended as wait, every operation that
-- was submitted has started, in the order of submission.
pub every_waiter_starts :
    (caps : SourceConcurrency) (fallback : Num) (subs : Submitted) (lanes : Lanes) (key : Text)
    (cap : ℕ)
    → Reached caps fallback subs lanes
    → cap_for key caps fallback ≡ ok cap
    → (((lanes key).waiters ≡ []) ⊎ (0 < (lanes key).active))
      × ((finish_times cap (length (lanes key).waiters) (lanes key)).started ≡ subs key)
every_waiter_starts caps fallback subs lanes key cap r e =
    let f = lanes-IsFair caps fallback subs lanes key cap r e in
    let pos = (cap_for-pos key caps fallback cap e).0 in
    (
      running cap (subs key) (lanes key) pos f,
      finish_times-drained cap (subs key) (length (lanes key).waiters) (lanes key) pos f
          (omega arith),
    )
