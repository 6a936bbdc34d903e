-- ===== src/Collection/Store/Leasing.antt =====
-- The transactions of packages/database/src/collection-state.ts that plan a partition and lease its pages:
-- planPartition, claimPage.
use tech_p.Base.{
  ℕ, ◌+◌, Bool, true, false, not, ◌&&◌, Option, none, some, List, [], ◌∷◌, ◌++◌, find, any,
  update_where, if◌then◌else◌, leb, ◌==◌, Text, eq_text, Num, safe_nat, Result, ok, ◌>>=◌, ◌>>◌,
  throw_if, need,
}
use tech_p.Collection.Model.{
  CollectionError, not_found, invalid_state, invalid_window, TargetRevision, Partition,
  PartitionState, Claim, PartitionPlan, TimeBasis, published_at, updated_at, observed_at,
}
use tech_p.Collection.Policy.{assert_collectable}
use tech_p.Collection.Page.{CursorCodec, natural_key, decode_page_cursor}
use tech_p.Collection.Store.{
  Db, RunRow, RunStatus, find_partition, read_target, collection_delivery, has_expired,
}

-- `!Number.isSafeInteger(leaseMs) || leaseMs < 1000 || leaseMs > 300000`
abbrev in_lease_range : Option ℕ → Option ℕ
in_lease_range none = none
in_lease_range (some n) = if leb 1000 n && leb n 300000 then some n else none

abbrev pub lease_duration : Num → Option ℕ
lease_duration n = in_lease_range (safe_nat n)

abbrev pub same_basis : TimeBasis → TimeBasis → Bool
same_basis published_at published_at = true
same_basis updated_at updated_at = true
same_basis observed_at observed_at = true
same_basis _ _ = false

-- completed, partial, cancelled, failed
abbrev pub is_settled : PartitionState → Bool
is_settled PartitionState.completed = true
is_settled PartitionState.partial = true
is_settled PartitionState.cancelled = true
is_settled PartitionState.failed = true
is_settled _ = false

abbrev new_partition : ℕ → Text → PartitionPlan → ℕ → Partition
new_partition id key plan now = record {
  id = id;
  natural_key = key;
  plan = plan;
  state = PartitionState.pending;
  page_sequence = 0;
  cursor = none;
  lease_epoch = 0;
  lease_until = none;
  next_due_at = now;
  reason = none;
  run_id = none;
  attempts = 0;
}

-- `insert into collection_partitions … on conflict do nothing`
unfoldable pub insert_partition : Text → PartitionPlan → ℕ → Db → Db
insert_partition key plan now db =
    if any (λ p. eq_text p.natural_key key) db.partitions then db else record db {
      partitions = db.partitions ++ new_partition db.next_id key plan now ∷ [];
      next_id = db.next_id + 1;
    }

-- `['pending', 'running', 'deferred'].includes(row.state)`
abbrev pub is_claimable : PartitionState → Bool
is_claimable st = not (is_settled st)

unfoldable pub may_claim : Partition → ℕ → ℕ → Bool
may_claim row page now =
    row.page_sequence == page
    && is_claimable row.state
    && leb row.next_due_at now
    && has_expired row.lease_until now

abbrev pub leased : ℕ → ℕ → Partition → Partition
leased run_id until p = record p {
  state = PartitionState.running;
  lease_epoch = p.lease_epoch + 1;
  lease_until = some until;
  run_id = some run_id;
  attempts = p.attempts + 1;
}

abbrev pub fail_run : ℕ → RunRow → RunRow
fail_run now r = record r { status = RunStatus.failed; ended_at = some now }

abbrev is_open_run : RunStatus → Bool
is_open_run RunStatus.running = true
is_open_run _ = false

-- The run of an expired lease is failed.
abbrev close_run : Option ℕ → ℕ → List RunRow → List RunRow
close_run none now runs = runs
close_run (some id) now runs =
    update_where (λ r. r.id == id && is_open_run r.status) (fail_run now) runs

-- The writes of `claimPage`: a run, an attempt, the lease.
unfoldable pub write_claim :
    TargetRevision → Partition → ℕ → ℕ → Db → Result CollectionError (Option Claim × Db)
write_claim target row now lease db = do
  throw_if (any (λ a. a.partition_id == row.id && a.lease_epoch == row.lease_epoch + 1) db.attempts)
      CollectionError.unique_violation
  ok (
    some (record {
      partition = leased db.next_id (now + lease) row;
      target = target;
      run_id = db.next_id;
    }),
    record db {
      runs = close_run row.run_id now (
          db.runs
          ++ record {
            id = db.next_id;
            source_id = target.source_id;
            status = RunStatus.running;
            cursor_before = row.cursor;
            cursor_after = none;
            ended_at = none;
          }
            ∷ []);
      attempts =
          db.attempts
          ++ record {
            run_id = db.next_id;
            partition_id = row.id;
            page_sequence = row.page_sequence;
            lease_epoch = row.lease_epoch + 1;
          }
            ∷ [];
      partitions =
          update_where (λ p. p.id == row.id) (leased db.next_id (now + lease)) db.partitions;
      next_id = db.next_id + 1;
    },
  )

module _ (codec : CursorCodec) where
  unfoldable pub plan_partition : PartitionPlan → ℕ → Db → Result CollectionError (Partition × Db)
  plan_partition plan now db = do
    key ← natural_key codec plan
    target ← need (read_target plan.target_revision_id db) not_found
    assert_collectable target
    throw_if (not (same_basis target.capability.time_basis plan.time_basis)) invalid_window
    let planned = insert_partition key plan now db
    row ← need (find (λ p. eq_text p.natural_key key) planned.partitions) not_found
    ok (
      row,
      if is_settled row.state
          then planned
          else collection_delivery row.id row.page_sequence row.next_due_at planned,
    )

  unfoldable pub claim_found :
      Option TargetRevision
      → Partition
      → ℕ
      → ℕ
      → ℕ
      → Db
      → Result CollectionError (Option Claim × Db)
  unfolding write_claim
  claim_found none row page now lease db = ok (none, db)
  claim_found (some target) row page now lease db = do
    assert_collectable target
    if may_claim row page now
        then (do
          decode_page_cursor codec row.plan row.cursor target.capability.cursor_version >>= λ _.
              write_claim target row now lease db)
        else ok (none, db)

  unfoldable pub claim_row :
      Option Partition → ℕ → ℕ → ℕ → Db → Result CollectionError (Option Claim × Db)
  unfolding claim_found
  claim_row none page now lease db = ok (none, db)
  claim_row (some row) page now lease db =
      claim_found (read_target row.plan.target_revision_id db) row page now lease db

  unfoldable pub claim_page : ℕ → ℕ → ℕ → Num → Db → Result CollectionError (Option Claim × Db)
  unfolding claim_row
  claim_page id page now lease_ms db = do
    lease ← need (lease_duration lease_ms) invalid_state
    claim_row (find_partition id db.partitions) page now lease db
