-- ===== src/Collection/Store/Commit.antt =====
-- `commitPage` of packages/database/src/collection-state.ts: the items of a page, its checkpoint, and
-- the next state of the partition, in one transaction.
use tech_p.Base.{
  ℕ, ◌+◌, Bool, true, false, ◌&&◌, Option, none, some, List, [], ◌∷◌, ◌++◌, find, any, length,
  if◌then◌else◌, leb, ◌==◌, Text, eq_text, Date, at, Result, ok, ◌>>=◌, ◌>>◌, throw_if, need,
}
use tech_p.Collection.Model.{
  CollectionError, not_found, invalid_page, TargetRevision, TargetPolicy, Partition, PartitionState,
  PageDisposition, CollectionMode, HistoryMode, Claim, RawItem, PageResult, normalization,
  normalization_of,
}
use tech_p.Collection.Policy.{assert_collectable, check_url, item_rights}
use tech_p.Collection.Page.{CursorCodec, decode_page_cursor, validate_page_result}
use tech_p.Collection.Store.{
  Db, RunRow, RunStatus, RawRow, DocumentRow, read_target, fence_page, insert_delivery,
  collection_delivery, set_partition, set_delivery, set_run,
}

abbrev pub same_raw : ℕ → Text → Text → RawRow → Bool
same_raw source external hash r =
    r.source_id == source && eq_text r.external_id external && eq_text r.payload_hash hash

-- `insert into raw_items … on conflict do nothing`
unfoldable pub insert_raw : ℕ → ℕ → RawItem → TargetPolicy → Db → Db
insert_raw source_id run_id item rights db =
    if any (same_raw source_id item.external_id item.raw_hash) db.raw_items then db else record db {
      raw_items =
          db.raw_items
          ++ record {
            id = db.next_id;
            source_id = source_id;
            run_id = run_id;
            external_id = item.external_id;
            payload_hash = item.raw_hash;
            rights = rights;
          }
            ∷ [];
      next_id = db.next_id + 1;
    }

abbrev revision_of : Option DocumentRow → Option ℕ
revision_of none = none
revision_of (some d) = some d.id

-- `insert into acquisition_memberships … on conflict do nothing`
unfoldable pub insert_membership : ℕ → ℕ → ℕ → Db → Db
insert_membership partition_id raw_id run_id db =
    if any (λ m. m.partition_id == partition_id && m.raw_item_id == raw_id) db.memberships
    then db
    else record db {
      memberships =
          db.memberships
          ++ record {
            partition_id = partition_id;
            raw_item_id = raw_id;
            run_id = run_id;
            revision_id = revision_of (find (λ d. d.raw_item_id == raw_id) db.documents);
          }
            ∷ [];
    }

-- One item of the page.
unfoldable pub store_item :
    TargetRevision → Partition → ℕ → ℕ → RawItem → Db → Result CollectionError Db
store_item target row run_id now item db = do
  check_url item.url
  rights ← item_rights item.rights target.policy
  let stored = insert_raw target.source_id run_id item rights db
  raw ←
      need (find (same_raw target.source_id item.external_id item.raw_hash) stored.raw_items)
        invalid_page
  ok (
      insert_delivery (normalization_of raw.id row.plan.workflow_version) normalization row.id
        row.page_sequence (some raw.id) none now (insert_membership row.id raw.id run_id stored))

unfoldable pub store_items :
    TargetRevision → Partition → ℕ → ℕ → List RawItem → Db → Result CollectionError Db
unfolding store_item
store_items target row run_id now [] db = ok db
store_items target row run_id now (item ∷ items) db = do
  db' ← store_item target row run_id now item db
  store_items target row run_id now items db'

abbrev pub next_state : PageDisposition → PartitionState
next_state PageDisposition.continue = PartitionState.pending
next_state PageDisposition.complete = PartitionState.completed
next_state PageDisposition.deferred = PartitionState.deferred
next_state PageDisposition.partial = PartitionState.partial

abbrev pub has_next_page : PageDisposition → Bool
has_next_page PageDisposition.continue = true
has_next_page PageDisposition.deferred = true
has_next_page _ = false

-- `result.retryAt ?? now`
abbrev pub due_after : Option Date → ℕ → ℕ
due_after (some (at ms)) now = ms
due_after _ now = now

abbrev pub not_later : Option Date → ℕ → Bool
not_later (some (at ms)) now = leb ms now
not_later _ now = false

abbrev pub is_backfill : CollectionMode → Bool
is_backfill CollectionMode.backfill = true
is_backfill _ = false

abbrev pub has_no_history : HistoryMode → Bool
has_no_history HistoryMode.feed_only = true
has_no_history HistoryMode.snapshot_only = true
has_no_history _ = false

abbrev pub is_complete : PageDisposition → Bool
is_complete PageDisposition.complete = true
is_complete _ = false

abbrev pub advanced : PageResult → ℕ → Partition → Partition
advanced result now p = record p {
  page_sequence = p.page_sequence + 1;
  cursor = result.next_cursor;
  state = next_state result.disposition;
  reason = result.reason;
  lease_until = none;
  next_due_at = due_after result.retry_at now;
}

unfoldable pub insert_checkpoint : Partition → PageResult → ℕ → ℕ → Db → Result CollectionError Db
insert_checkpoint row result requests bytes db = do
  throw_if
      (any (λ c. c.partition_id == row.id && c.page_sequence == row.page_sequence) db.checkpoints)
      CollectionError.unique_violation
  ok (record db {
    checkpoints =
        db.checkpoints
        ++ record {
          partition_id = row.id;
          page_sequence = row.page_sequence;
          lease_epoch = row.lease_epoch;
          cursor_before = row.cursor;
          cursor_after = result.next_cursor;
          disposition = result.disposition;
          retained_items = length result.items;
          requests = requests;
          bytes = bytes;
        }
          ∷ [];
  })

abbrev succeed_run : PageResult → ℕ → RunRow → RunRow
succeed_run result now r = record r {
  status = RunStatus.succeeded;
  ended_at = some now;
  cursor_after = result.next_cursor;
}

-- The updates behind the checkpoint.
unfoldable pub finish_page : Partition → ℕ → PageResult → ℕ → Db → Db
finish_page row run_id result now db =
    let moved =
      set_delivery row.id row.page_sequence (λ d. record d { completed_at = some now })
        (set_run run_id (succeed_run result now) (set_partition row.id (advanced result now) db)) in
    if has_next_page result.disposition
    then collection_delivery row.id (row.page_sequence + 1) (due_after result.retry_at now) moved
    else moved

module _ (codec : CursorCodec) where
  unfoldable pub commit_page : Claim → PageResult → ℕ → Db → Result CollectionError Db
  unfolding store_items insert_checkpoint finish_page
  commit_page claim result now db = do
    (requests, bytes) ← validate_page_result claim.partition.cursor result
    throw_if (not_later result.retry_at now) invalid_page
    throw_if
        (is_complete result.disposition
          && is_backfill claim.partition.plan.mode
          && has_no_history claim.target.capability.history_mode)
        invalid_page
    target ← need (read_target claim.target.id db) not_found
    assert_collectable target
    row ← fence_page claim now db
    decode_page_cursor codec row.plan result.next_cursor target.capability.cursor_version >>= λ _.
        (do
          stored ← store_items target row claim.run_id now result.items db
          checked ← insert_checkpoint row result requests bytes stored
          ok (finish_page row claim.run_id result now checked))
