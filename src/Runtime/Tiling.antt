-- ===== src/Runtime/Tiling.antt =====
-- The slices of a backfill in apps/worker/src/partition-runtime.ts, and the loop that plans them.
use mathlib.Core.Path.{subst}
use tech_p.Base.{
  ℕ, ◌+◌, ◌-◌, ◌≤◌, ◌<◌, ◌≡◌, ◌≢◌, refl, sym, ◌∙◌, ap, true, not, Option, none, some, List, [], ◌∷◌,
  arith, leb, ltb, min, some_injective, ok_injective, Bool-cases, inl, inr, is_some, get_or_else,
  Date, at, invalid, Result, ok, err,
}
use tech_p.Collection.Model.{
  CollectionError, CollectionMode, CollectionWindow, Partition, invalid_window, policy_blocked,
}
use tech_p.Collection.Policy.{is_collectable}
use tech_p.Collection.Page.{valid_window}
use tech_p.Collection.Store.Commit.{has_no_history}
use tech_p.Runtime.Planning.{
  PlannerPort, PlanRequest, Planned, plan_for, window_of, prepend, after_slice, plan_slices,
  plan_backfill, plan_history, plan_mode, plan_target, default_slice,
}

-- The windows of the partitions run from `a` to `b`, each from where the one before ends, none empty and
-- none longer than a slice.
abbrev pub Tiles : ℕ → ℕ → ℕ → List Partition → Type 0
Tiles slice a b [] = a ≡ b
Tiles slice a b (p ∷ ps) =
    (c : ℕ) × (p.plan.window ≡ window_of a c)
    × (a < c)
    × (c ≤ b)
    × (c ≤ a + slice)
    × Tiles slice c b ps

valid_window-lt : (a b : ℕ) → is_some (valid_window (window_of a b)) ≡ true → a < b
unfolding valid_window
valid_window-lt a b h = ground arith

module _ (port : PlannerPort) where
  open port use {State, plan_partition}

  prepend-eq-ok :
      (p : Partition) (o : Option (Planned port)) (ps : List Partition) (s : State)
      → prepend port p o ≡ some (ok ps, s)
      → (rest : List Partition) × (o ≡ some (ok rest, s)) × (p ∷ rest ≡ ps)
  prepend-eq-ok p (some (ok rest, s1)) ps s e =
      let both = some_injective e in
      (
        rest,
        ap (λ x. some (ok rest, x)) (ap (λ (y : Planned port). y.1) both),
        ok_injective (ap (λ (y : Planned port). y.0) both),
      )
  prepend-eq-ok p (some (err x, s1)) ps s e =
      let no : Path (Result CollectionError (List Partition)) (err x) (ok ps) =
        ap (λ (y : Planned port). y.0) (some_injective e) in
      cc
  prepend-eq-ok p none ps s e = cc

  slices_tile :
      (fuel from to slice : ℕ) (r : PlanRequest) (now : ℕ) (s : State) (ps : List Partition)
      (s' : State)
      → from ≤ to
      → plan_slices port fuel from to slice r now s ≡ some (ok ps, s')
      → Tiles slice from to ps
  unfolding plan_slices
  slices_tile Prim.Native.Nat.zero from to slice r now s ps s' h e = cc
  slices_tile (Prim.Native.Nat.suc fuel) from to slice r now s ps s' h e =
      elim (Bool-cases (ltb from to)) [
        | inr done ↦
            let stop : Path (Option (Planned port)) (some (ok [], s)) (some (ok ps, s')) =
              rw (plan_slices, done) at e in
            let same : [] ≡ ps =
              ok_injective (ap (λ (y : Planned port). y.0) (some_injective stop)) in
            subst (λ qs. Tiles slice from to qs) same (ground arith)
        | inl more ↦
            go (plan_partition (plan_for r (window_of from (min (from + slice) to))) now s) refl
              (rw (plan_slices, more) at e)
              (λ s1 rest up g.
                slices_tile fuel (min (from + slice) to) to slice r now s1 rest s' up g)
      ]
    where
      go :
          (m : Result CollectionError (Partition × State))
          → plan_partition (plan_for r (window_of from (min (from + slice) to))) now s ≡ m
          → after_slice port m s
              (λ s1. plan_slices port fuel (min (from + slice) to) to slice r now s1)
            ≡ some (ok ps, s')
          → ((s1 : State) (rest : List Partition)
              → min (from + slice) to ≤ to
              → plan_slices port fuel (min (from + slice) to) to slice r now s1 ≡ some (ok rest, s')
              → Tiles slice (min (from + slice) to) to rest)
          → Tiles slice from to ps
      go (err x) f g later =
          let no : Path (Result CollectionError (List Partition)) (err x) (ok ps) =
            ap (λ (y : Planned port). y.0) (some_injective g) in
          cc
      go (ok (p, s1)) f g later =
          let plan = plan_for r (window_of from (min (from + slice) to)) in
          let (rest, e1, same) = prepend-eq-ok p _ ps s' g in
          let valid = port.plan_valid plan now s p s1 f in
          let up = valid_window-lt from (min (from + slice) to) valid in
          let tail = later s1 rest (omega arith) e1 in
          subst (λ qs. Tiles slice from to qs) same
            (
              min (from + slice) to,
              port.plan_window plan now s p s1 f,
              up,
              omega arith,
              omega arith,
              tail,
            )

  prepend-none : (p : Partition) (o : Option (Planned port)) → o ≢ none → prepend port p o ≢ none
  prepend-none p none h e = h refl
  prepend-none p (some (ok ps, s)) h e = cc
  prepend-none p (some (err x, s)) h e = cc

  -- One unit of fuel for each millisecond of the window, and one to stop, is enough.
  slices_end :
      (fuel from to slice : ℕ) (r : PlanRequest) (now : ℕ) (s : State)
      → from ≤ to
      → to < from + fuel
      → plan_slices port fuel from to slice r now s ≢ none
  unfolding plan_slices
  slices_end Prim.Native.Nat.zero from to slice r now s h k e = ground arith
  slices_end (Prim.Native.Nat.suc fuel) from to slice r now s h k e =
      elim (Bool-cases (ltb from to)) [
        | inr done ↦
            let no : Path (Option (Planned port)) (some (ok [], s)) none =
              rw (plan_slices, done) at e in
            cc
        | inl more ↦
            go (plan_partition (plan_for r (window_of from (min (from + slice) to))) now s) refl
              (rw (plan_slices, more) at e)
              (λ s1 up small. slices_end fuel (min (from + slice) to) to slice r now s1 up small)
      ]
    where
      go :
          (m : Result CollectionError (Partition × State))
          → plan_partition (plan_for r (window_of from (min (from + slice) to))) now s ≡ m
          → after_slice port m s
              (λ s1. plan_slices port fuel (min (from + slice) to) to slice r now s1)
            ≡ none
          → ((s1 : State)
              → min (from + slice) to ≤ to
              → to < min (from + slice) to + fuel
              → plan_slices port fuel (min (from + slice) to) to slice r now s1 ≢ none)
          → ⊥
      go (err x) f g later = cc
      go (ok (p, s1)) f g later =
          let plan = plan_for r (window_of from (min (from + slice) to)) in
          let up =
            valid_window-lt from (min (from + slice) to) (port.plan_valid plan now s p s1 f) in
          prepend-none p _ (later s1 (omega arith) (omega arith)) g

  -- Over a port that accepts no empty window, planning always ends: whatever the request, its slice included,
  -- and whatever else the port answers.
  pub planning_ends : (r : PlanRequest) (now : ℕ) (s : State) → plan_target port r now s ≢ none
  unfolding plan_target
  planning_ends r now s e = elim (Bool-cases (not (is_collectable r.target))) [
    | inl blocked ↦
        let no : Path (Option (Planned port)) (some (err policy_blocked, s)) none =
          rw blocked at e in
        cc
    | inr open_target ↦ by_mode r.mode (rw open_target at e)
  ]
    where
      by_window : (from to : Date) → plan_backfill port from to r now s ≢ none
      by_window (at from) (at to) g = elim (Bool-cases (leb to from)) [
        | inl empty ↦
            let no : Path (Option (Planned port)) (some (err invalid_window, s)) none =
              rw empty at g in
            cc
        | inr ordered ↦
            slices_end (to - from + 1) from to (get_or_else r.slice_ms default_slice) r now s
              (ground arith) (ground arith) (rw ordered at g)
      ]
      by_window (at from) invalid g = cc
      by_window invalid to g = cc

      by_history : (w : Option CollectionWindow) → plan_history port w r now s ≢ none
      by_history none g = cc
      by_history (some w) g = elim (Bool-cases (has_no_history r.target.capability.history_mode)) [
        | inl bare ↦
            let no : Path (Option (Planned port)) (some (err invalid_window, s)) none =
              rw bare at g in
            cc
        | inr kept ↦ by_window w.from w.to (rw kept at g)
      ]

      by_mode : (m : CollectionMode) → plan_mode port m r now s ≢ none
      by_mode CollectionMode.backfill g = by_history r.window g
      by_mode CollectionMode.incremental g = ground arith
      by_mode CollectionMode.on_demand g = cc

  -- A backfill that succeeds has planned partitions whose windows cover the window asked for: the first
  -- starts where it starts, each starts where the one before ends, the last ends where it ends, none is
  -- empty and none is longer than a slice.
  pub backfill-Tiles :
      (r : PlanRequest) (from to now : ℕ) (s : State) (ps : List Partition) (s' : State)
      → r.mode ≡ CollectionMode.backfill
      → r.window ≡ some (window_of from to)
      → plan_target port r now s ≡ some (ok ps, s')
      → Tiles (get_or_else r.slice_ms default_slice) from to ps
  unfolding plan_target
  backfill-Tiles r from to now s ps s' m w e = elim (Bool-cases (not (is_collectable r.target))) [
    | inl blocked ↦ refused policy_blocked (rw blocked at e)
    | inr open_target ↦
        let by_mode : plan_mode port CollectionMode.backfill r now s ≡ some (ok ps, s') =
          ap (λ k. plan_mode port k r now s) (sym m) ∙ rw open_target at e in
        history (ap (λ k. plan_history port k r now s) (sym w) ∙ by_mode)
  ]
    where
      refused :
          (x : CollectionError)
          → Path (Option (Planned port)) (some (err x, s)) (some (ok ps, s'))
          → Tiles (get_or_else r.slice_ms default_slice) from to ps
      refused x g =
          let no : Path (Result CollectionError (List Partition)) (err x) (ok ps) =
            ap (λ (y : Planned port). y.0) (some_injective g) in
          cc

      history :
          plan_history port (some (window_of from to)) r now s ≡ some (ok ps, s')
          → Tiles (get_or_else r.slice_ms default_slice) from to ps
      history g = elim (Bool-cases (has_no_history r.target.capability.history_mode)) [
        | inl bare ↦ refused invalid_window (rw bare at g)
        | inr kept ↦
            let h : plan_backfill port (at from) (at to) r now s ≡ some (ok ps, s') =
              rw kept at g in
            elim (Bool-cases (leb to from)) [
              | inl empty ↦ refused invalid_window (rw empty at h)
              | inr ordered ↦
                  slices_tile (to - from + 1) from to (get_or_else r.slice_ms default_slice) r now s
                    ps s' (ground arith) (rw ordered at h)
            ]
      ]
