-- ===== src/Collection/Store/Replaying.antt =====
-- The replay of acquired items: `publisher.replan` of createDatabaseReplayPorts in
-- packages/database/src/collection-state.ts. Rows of a join come in the order of the memberships.
use tech_p.Base.{
  ℕ, Bool, true, not, ◌&&◌, Option, none, some, List, [], ◌∷◌, ◌++◌, length, find, any,
  update_where, if◌then◌else◌, leb, ◌==◌, Text, is_some, Result, ok, ◌>>=◌, ◌>>◌, throw_if, need,
}
use tech_p.Collection.Model.{
  CollectionError, not_found, invalid_replay, Partition, Delivery, DeliveryKey, normalization,
  normalization_of,
}
use tech_p.Collection.Policy.{assert_collectable}
use tech_p.Collection.Store.{
  Db, RawRow, MembershipRow, find_partition, read_target, eq_key, insert_delivery,
}

pub data ReplayScope : Type 0 where
  replay_run replay_raw replay_stage : ReplayScope

-- scopeFilter
abbrev in_scope : ReplayScope → ℕ → MembershipRow → Bool
in_scope ReplayScope.replay_run id m = m.run_id == id
in_scope _ id m = m.raw_item_id == id

-- The columns of the join that the loop reads.
pub record ReplayRow : Type 0 where
  pub raw_item_id : ℕ
  pub partition_id : ℕ
  pub page_sequence : ℕ
  pub workflow_version : Text
  pub target_revision_id : ℕ

-- An inner join drops a membership without an item or a partition.
abbrev joined_row : Bool → Option RawRow → Option Partition → List ReplayRow
joined_row true (some raw) (some p) =
    record {
      raw_item_id = raw.id;
      partition_id = p.id;
      page_sequence = p.page_sequence;
      workflow_version = p.plan.workflow_version;
      target_revision_id = p.plan.target_revision_id;
    }
    ∷ []
joined_row _ _ _ = []

unfoldable pub replay_rows : ReplayScope → ℕ → List MembershipRow → Db → List ReplayRow
replay_rows scope id [] db = []
replay_rows scope id (m ∷ ms) db =
    joined_row (in_scope scope id m) (find (λ r. r.id == m.raw_item_id) db.raw_items)
      (find_partition m.partition_id db.partitions)
    ++ replay_rows scope id ms db

pub record ReplayResult : Type 0 where
  pub duplicate : Bool
  pub delivery_ids : List ℕ

-- `deliveryIds.add`, of a set that keeps the order of its first insertions.
abbrev add_id : ℕ → List ℕ → List ℕ
add_id id ids = if any (λ x. x == id) ids then ids else ids ++ id ∷ []

abbrev again : ℕ → Delivery → Delivery
again now d = record d { sent_at = none; not_before = now }

abbrev pub reset_delivery : Delivery → ℕ → Db → Db
reset_delivery d now db =
    if is_some d.completed_at
    then db
    else record db { outbox = update_where (λ x. x.id == d.id) (again now) db.outbox }

abbrev pub replay_key : ReplayRow → DeliveryKey
replay_key row = normalization_of row.raw_item_id row.workflow_version

-- One turn of the loop. A row is inserted if there is none with its natural key.
unfoldable pub replay_row :
    ReplayRow → ℕ → ReplayResult → Db → Result CollectionError (ReplayResult × Db)
unfolding eq_key
replay_row row now r db = do
  target ← need (read_target row.target_revision_id db) not_found
  assert_collectable target
  let found = any (λ d. eq_key d.natural_key (replay_key row)) db.outbox
  let stored =
      insert_delivery (replay_key row) normalization row.partition_id row.page_sequence
        (some row.raw_item_id) none now db
  d ← need (find (λ d. eq_key d.natural_key (replay_key row)) stored.outbox) not_found
  ok (
    record { duplicate = r.duplicate && found; delivery_ids = add_id d.id r.delivery_ids },
    reset_delivery d now stored,
  )

unfoldable pub replay_all :
    List ReplayRow → ℕ → ReplayResult → Db → Result CollectionError (ReplayResult × Db)
unfolding replay_row
replay_all [] now r db = ok (r, db)
replay_all (row ∷ rows) now r db = do
  (r', db') ← replay_row row now r db
  replay_all rows now r' db'

-- `rows.length === 0 || rows.length > 500`, of at most 501 rows that are read.
abbrev pub in_replay_range : List ReplayRow → Bool
in_replay_range rows = leb 1 (length rows) && leb (length rows) 500

unfoldable pub replan : ReplayScope → ℕ → ℕ → Db → Result CollectionError (ReplayResult × Db)
unfolding replay_rows replay_all
replan scope id now db = do
  let rows = replay_rows scope id db.memberships db
  throw_if (not (in_replay_range rows)) invalid_replay
  replay_all rows now (record { duplicate = true; delivery_ids = [] }) db
