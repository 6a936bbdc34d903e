-- ===== src/Runtime/Tests.antt =====
-- Planning of apps/worker/src/partition-runtime.ts over a small database, and each property of it at an input
-- that it covers.
use tech_p.Base.{
  ℕ, ◌≡◌, ◌≢◌, refl, Option, none, some, List, [], ◌∷◌, if◌then◌else◌, ◌==◌, find, any, all, Date,
  at, invalid, Text, codes, eq_text, ok, err,
}
use tech_p.Collection.Model
use tech_p.Collection.Model.{
  invalid_window, CollectionMode, CollectionWindow, PartitionPlan, Partition,
}
use tech_p.Collection.Policy.{is_collectable, assert_collectable}
use tech_p.Collection.Page.{CursorCodec, natural_key, valid_window, validate_window}
use tech_p.Collection.Store.{read_target, collection_delivery}
use tech_p.Collection.Store.Leasing.{plan_partition, insert_partition}
use tech_p.Collection.Sample.{codec, base, target}
use tech_p.Runtime.Planning.{PlannerPort, PlanRequest, Planned, plan_for, window_of, plan_target}
use tech_p.Runtime.StatePort.{KeyedDb, state_port, keep_keyed}
use tech_p.Runtime.Tiling.{Tiles, planning_ends, backfill-Tiles}

-- The key of a plan holds its window.
abbrev date_units : Date → Text → Text
date_units (at ms) rest = 0 ∷ ms ∷ rest
date_units invalid rest = 1 ∷ 0 ∷ rest

abbrev date_of : ℕ → ℕ → Date
date_of tag ms = if tag == 0 then at ms else invalid

abbrev window_codec : CursorCodec
window_codec = record codec {
  plan_key =
      λ p. date_units p.window.from (date_units p.window.to (p.target_revision_id ∷ p.scope_key));
}

abbrev read_window : Text → CollectionWindow
read_window (a ∷ from ∷ b ∷ to ∷ rest) = record { from = date_of a from; to = date_of b to }
read_window _ = record { from = invalid; to = invalid }

reads : (plan : PartitionPlan) → read_window (window_codec.plan_key plan) ≡ plan.window
reads plan = go plan.window.from plan.window.to
  where
    go :
        (from to : Date)
        → read_window (date_units from (date_units to (plan.target_revision_id ∷ plan.scope_key)))
          ≡ record { from = from; to = to }
    go (at a) (at b) = refl
    go (at a) invalid = refl
    go invalid (at b) = refl
    go invalid invalid = refl

abbrev port : PlannerPort
port = state_port window_codec read_window reads

abbrev start : KeyedDb window_codec
start = (base, tt)

abbrev request : PlanRequest
request = record {
  target = target;
  mode = CollectionMode.backfill;
  window = some (window_of 0 10);
  scope_key = none;
  workflow_version = none;
  slice_ms = some 4;
}

abbrev planned : ℕ → ℕ → ℕ → Partition
planned id a b = record {
  id = id;
  natural_key = 0 ∷ a ∷ 0 ∷ b ∷ 3 ∷ codes "default";
  plan = plan_for request (window_of a b);
  state = Model.PartitionState.pending;
  page_sequence = 0;
  cursor = none;
  lease_epoch = 0;
  lease_until = none;
  next_due_at = 100;
  reason = none;
  run_id = none;
  attempts = 0;
}

abbrev slices : List Partition
slices = planned 10 0 4 ∷ planned 12 4 8 ∷ planned 14 8 10 ∷ []

abbrev state_or : KeyedDb window_codec → Option (Planned port) → KeyedDb window_codec
state_or s none = s
state_or s (some (r, s')) = s'

-- The tables after the plan.
abbrev end : KeyedDb window_codec
end = state_or start (plan_target port request 100 start)

-- A window of ten in slices of four.
plans_three : plan_target port request 100 start ≡ some (ok slices, end)
unfolding plan_target is_collectable valid_window validate_window keep_keyed plan_partition
    natural_key read_target insert_partition collection_delivery find any all eq_text
    assert_collectable
plans_three = refl

backfill-Tiles_example : Tiles 4 0 10 slices
backfill-Tiles_example = backfill-Tiles port request 0 10 100 start slices end refl refl plans_three

planning_ends_example : plan_target port (record request { slice_ms = some 0 }) 100 start ≢ none
planning_ends_example = planning_ends port (record request { slice_ms = some 0 }) 100 start

-- A slice of no length is refused by the port, and ends the loop.
empty_slice :
    plan_target port (record request { slice_ms = some 0 }) 100 start
    ≡ some (err invalid_window, start)
unfolding plan_target is_collectable valid_window validate_window keep_keyed plan_partition
    natural_key
empty_slice = refl
