-- ===== src/Runtime/Planning.antt =====
-- planTargetPartitions of apps/worker/src/partition-runtime.ts, over the port that it plans with.
use tech_p.Base.{
  ℕ, ◌+◌, ◌-◌, ◌≡◌, Bool, true, false, not, Option, none, some, List, [], ◌∷◌, if◌then◌else◌, leb,
  ltb, min, get_or_else, is_some, Date, at, invalid, Text, codes, Result, ok, err,
}
use tech_p.Collection.Model.{
  CollectionError, invalid_window, policy_blocked, CollectionMode, CollectionWindow, TargetRevision,
  PartitionPlan, Partition,
}
use tech_p.Collection.Policy.{is_collectable}
use tech_p.Collection.Page.{valid_window}
use tech_p.Collection.Store.Commit.{has_no_history}

-- planPartition of CollectionStatePort, with what the loop relies on.
pub record PlannerPort : Type 1 where
  pub State : Type 0
  pub plan_partition : PartitionPlan → ℕ → State → Result CollectionError (Partition × State)
  -- a plan whose window is empty or has an invalid end is refused
  pub plan_valid :
      (plan : PartitionPlan) (now : ℕ) (s : State) (p : Partition) (s' : State)
      → plan_partition plan now s ≡ ok (p, s')
      → is_some (valid_window plan.window) ≡ true
  -- the partition that is returned is one for the window of the plan
  pub plan_window :
      (plan : PartitionPlan) (now : ℕ) (s : State) (p : Partition) (s' : State)
      → plan_partition plan now s ≡ ok (p, s')
      → p.plan.window ≡ plan.window

-- Durations are whole numbers of milliseconds.
pub record PlanRequest : Type 0 where
  pub target : TargetRevision
  pub mode : CollectionMode
  pub window : Option CollectionWindow
  pub scope_key : Option Text
  pub workflow_version : Option Text
  pub slice_ms : Option ℕ

-- A week.
abbrev pub default_slice : ℕ
default_slice = 604800000

abbrev pub window_of : ℕ → ℕ → CollectionWindow
window_of a b = record { from = at a; to = at b }

abbrev pub plan_for : PlanRequest → CollectionWindow → PartitionPlan
plan_for r w = record {
  target_revision_id = r.target.id;
  mode = r.mode;
  scope_key = get_or_else r.scope_key (codes "default");
  window = w;
  time_basis = r.target.capability.time_basis;
  workflow_version = get_or_else r.workflow_version (codes "1");
}

-- `new Date(to - cadence - overlap)`
abbrev pub before : Date → ℕ → ℕ → Date
before (at ms) cadence overlap = at (ms - cadence - overlap)
before invalid cadence overlap = invalid

-- `from.getTime() >= to.getTime()`, which no invalid date fulfils
abbrev pub not_before : Date → Date → Bool
not_before (at a) (at b) = leb b a
not_before _ _ = false

-- The window of an incremental plan: that of the request, or the last cadence and the overlap.
abbrev pub incremental_window : PlanRequest → ℕ → CollectionWindow
incremental_window r now = choose r.window
  where
    choose : Option CollectionWindow → CollectionWindow
    choose (some w) = w
    choose none = record {
      from = before (at now) (get_or_else r.target.cadence_ms 3600000) r.target.overlap_ms;
      to = at now;
    }

module _ (port : PlannerPort) where
  open port use {State, plan_partition}

  -- The partitions planned, or the error, with the state: a plan that is refused undoes none before it.
  abbrev pub Planned : Type 0
  Planned = Result CollectionError (List Partition) × State

  abbrev pub prepend : Partition → Option Planned → Option Planned
  prepend p (some (ok ps, s)) = some (ok (p ∷ ps), s)
  prepend p (some (err e, s)) = some (err e, s)
  prepend p none = none

  -- A slice that is refused ends the loop, one that is planned goes before the rest.
  abbrev pub after_slice :
      Result CollectionError (Partition × State) → State → (State → Option Planned) → Option Planned
  after_slice (err e) s rest = some (err e, s)
  after_slice (ok (p, s')) s rest = prepend p (rest s')

  -- The loop of a backfill, on fuel: none is a run that has not ended.
  unfoldable pub plan_slices : ℕ → ℕ → ℕ → ℕ → PlanRequest → ℕ → State → Option Planned
  plan_slices Prim.Native.Nat.zero from to slice r now s = none
  plan_slices (Prim.Native.Nat.suc fuel) from to slice r now s = elim (ltb from to) [
    | false ↦ some (ok [], s)
    | true ↦
        after_slice (plan_partition (plan_for r (window_of from (min (from + slice) to))) now s) s
          (λ s'. plan_slices fuel (min (from + slice) to) to slice r now s')
  ]

  -- An invalid date passes the test on the order, and the loop does not run.
  unfoldable pub plan_backfill : Date → Date → PlanRequest → ℕ → State → Option Planned
  unfolding plan_slices
  plan_backfill (at from) (at to) r now s =
      if leb to from
      then some (err invalid_window, s)
      else plan_slices (to - from + 1) from to (get_or_else r.slice_ms default_slice) r now s
  plan_backfill _ _ r now s = some (ok [], s)

  abbrev pub one_planned : Result CollectionError (Partition × State) → State → Planned
  one_planned (ok (p, s')) s = (ok (p ∷ []), s')
  one_planned (err e) s = (err e, s)

  unfoldable pub plan_history : Option CollectionWindow → PlanRequest → ℕ → State → Option Planned
  unfolding plan_backfill
  plan_history none r now s = some (err invalid_window, s)
  plan_history (some w) r now s =
      if has_no_history r.target.capability.history_mode
      then some (err invalid_window, s)
      else plan_backfill w.from w.to r now s

  unfoldable pub plan_window_of : Option CollectionWindow → PlanRequest → ℕ → State → Planned
  plan_window_of none r now s = (err invalid_window, s)
  plan_window_of (some w) r now s = one_planned (plan_partition (plan_for r w) now s) s

  unfoldable pub plan_mode : CollectionMode → PlanRequest → ℕ → State → Option Planned
  unfolding plan_history plan_window_of
  plan_mode CollectionMode.backfill r now s = plan_history r.window r now s
  plan_mode CollectionMode.incremental r now s =
      let w = incremental_window r now in
      if not_before w.from w.to
      then some (err invalid_window, s)
      else some (plan_window_of (some w) r now s)
  plan_mode CollectionMode.on_demand r now s = some (plan_window_of r.window r now s)

  unfoldable pub plan_target : PlanRequest → ℕ → State → Option Planned
  unfolding plan_mode
  plan_target r now s =
      if not (is_collectable r.target)
      then some (err policy_blocked, s)
      else plan_mode r.mode r now s
