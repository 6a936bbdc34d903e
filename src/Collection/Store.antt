-- ===== src/Collection/Store.antt =====
-- The tables of packages/database/src/collection-state.ts and the reads and writes that its
-- transactions share. A table is a list of rows; ids are counted up from `next_id`.
pub mod Leasing
pub mod Renewing
pub mod Commit
pub mod Outbox
pub mod Targets
pub mod Replaying
use tech_p.Base.{
  ℕ, ◌+◌, Bool, true, false, not, ◌&&◌, ◌||◌, Option, none, some, List, [], ◌∷◌, ◌++◌, find, any,
  update_where, if◌then◌else◌, leb, ◌==◌, Text, eq_text, is_some, Result, ok, err, ◌>>=◌, ◌>>◌,
  throw_if, need,
}
use tech_p.Collection.Model.{
  CollectionError, stale_lease, not_found, TargetCapability, TargetPolicy, TargetRevision,
  Partition, PartitionState, Delivery, DeliveryKind, collection, normalization, embedding,
  DeliveryKey, collection_page, normalization_of, embedding_of, Claim, PageDisposition,
}

pub record SourceRow : Type 0 where
  pub id : ℕ
  pub key : Text
  pub enabled : Bool
  pub policy_reviewed : Bool

pub record TargetRow : Type 0 where
  pub id : ℕ
  pub source_id : ℕ
  pub canonical_identity : Text
  pub current_revision_id : Option ℕ
  pub enabled : Bool

pub record RevisionRow : Type 0 where
  pub id : ℕ
  pub target_id : ℕ
  pub config_hash : Text
  pub capability : TargetCapability
  pub policy : TargetPolicy
  pub cadence_ms : Option ℕ
  pub overlap_ms : ℕ

pub data RunStatus : Type 0 where
  running succeeded failed : RunStatus

pub record RunRow : Type 0 where
  pub id : ℕ
  pub source_id : ℕ
  pub status : RunStatus
  pub cursor_before : Option Text
  pub cursor_after : Option Text
  pub ended_at : Option ℕ

pub record AttemptRow : Type 0 where
  pub run_id : ℕ
  pub partition_id : ℕ
  pub page_sequence : ℕ
  pub lease_epoch : ℕ

pub record CheckpointRow : Type 0 where
  pub partition_id : ℕ
  pub page_sequence : ℕ
  pub lease_epoch : ℕ
  pub cursor_before : Option Text
  pub cursor_after : Option Text
  pub disposition : PageDisposition
  pub retained_items : ℕ
  pub requests : ℕ
  pub bytes : ℕ

pub record RawRow : Type 0 where
  pub id : ℕ
  pub source_id : ℕ
  pub run_id : ℕ
  pub external_id : Text
  pub payload_hash : Text
  pub rights : TargetPolicy

pub record MembershipRow : Type 0 where
  pub partition_id : ℕ
  pub raw_item_id : ℕ
  pub run_id : ℕ
  pub revision_id : Option ℕ

-- Of document_revisions: the revision of a raw item.
pub record DocumentRow : Type 0 where
  pub id : ℕ
  pub raw_item_id : ℕ

pub record Db : Type 0 where
  pub sources : List SourceRow
  pub targets : List TargetRow
  pub revisions : List RevisionRow
  pub partitions : List Partition
  pub runs : List RunRow
  pub attempts : List AttemptRow
  pub checkpoints : List CheckpointRow
  pub raw_items : List RawRow
  pub memberships : List MembershipRow
  pub documents : List DocumentRow
  pub outbox : List Delivery
  pub next_id : ℕ

abbrev pub find_partition : ℕ → List Partition → Option Partition
find_partition id rows = find (λ p. p.id == id) rows

abbrev pub eq_some : Option ℕ → ℕ → Bool
eq_some none n = false
eq_some (some m) n = m == n

-- readTarget: the revision with its target and source. It is enabled if the source is, the target is,
-- and the revision is the current one.
abbrev pub joined : RevisionRow → TargetRow → SourceRow → TargetRevision
joined r t s = record {
  id = r.id;
  target_id = t.id;
  source_id = s.id;
  canonical_identity = t.canonical_identity;
  capability = r.capability;
  policy = r.policy;
  enabled = s.enabled && t.enabled && eq_some t.current_revision_id r.id;
  cadence_ms = r.cadence_ms;
  overlap_ms = r.overlap_ms;
}

join_source : RevisionRow → TargetRow → Option SourceRow → Option TargetRevision
join_source r t none = none
join_source r t (some s) = some (joined r t s)

join_target : List SourceRow → RevisionRow → Option TargetRow → Option TargetRevision
join_target sources r none = none
join_target sources r (some t) = join_source r t (find (λ s. s.id == t.source_id) sources)

join_revision : Db → Option RevisionRow → Option TargetRevision
join_revision db none = none
join_revision db (some r) = join_target db.sources r (find (λ t. t.id == r.target_id) db.targets)

unfoldable pub read_target : ℕ → Db → Option TargetRevision
unfolding join_source join_target join_revision
read_target id db = join_revision db (find (λ r. r.id == id) db.revisions)

abbrev pub is_running : PartitionState → Bool
is_running PartitionState.running = true
is_running _ = false

-- `!row.leaseUntil || row.leaseUntil <= now`
abbrev pub has_expired : Option ℕ → ℕ → Bool
has_expired none now = true
has_expired (some until) now = leb until now

-- The lease of `row` is the one that `claim` was given, and it holds still.
unfoldable pub holds_lease : Partition → Claim → ℕ → Bool
holds_lease row claim now =
    row.plan.target_revision_id == claim.target.id
    && row.plan.target_revision_id == claim.partition.plan.target_revision_id
    && is_running row.state
    && row.page_sequence == claim.partition.page_sequence
    && row.lease_epoch == claim.partition.lease_epoch
    && not (has_expired row.lease_until now)
    && eq_some row.run_id claim.run_id

unfoldable pub fence_page : Claim → ℕ → Db → Result CollectionError Partition
fence_page claim now db = do
  row ← need (find_partition claim.partition.id db.partitions) stale_lease
  throw_if (not (holds_lease row claim now)) stale_lease
  ok row

unfoldable pub eq_key : DeliveryKey → DeliveryKey → Bool
eq_key (collection_page a n) (collection_page b m) = a == b && n == m
eq_key (normalization_of a v) (normalization_of b w) = a == b && eq_text v w
eq_key (embedding_of a) (embedding_of b) = a == b
eq_key _ _ = false

-- `insert into delivery_outbox … on conflict do nothing`
unfoldable pub insert_delivery :
    DeliveryKey → DeliveryKind → ℕ → ℕ → Option ℕ → Option ℕ → ℕ → Db → Db
unfolding eq_key
insert_delivery key kind partition_id page raw revision not_before db =
    if any (λ d. eq_key d.natural_key key) db.outbox then db else record db {
      outbox =
          db.outbox
          ++ record {
            id = db.next_id;
            natural_key = key;
            kind = kind;
            partition_id = partition_id;
            page_sequence = page;
            raw_item_id = raw;
            revision_id = revision;
            not_before = not_before;
            lease_epoch = 0;
            lease_until = none;
            sent_at = none;
            completed_at = none;
          }
            ∷ [];
      next_id = db.next_id + 1;
    }

-- collectionDelivery
unfoldable pub collection_delivery : ℕ → ℕ → ℕ → Db → Db
unfolding insert_delivery
collection_delivery partition_id page not_before db =
    insert_delivery (collection_page partition_id page) collection partition_id page none none
      not_before db

abbrev pub is_collection : DeliveryKind → Bool
is_collection collection = true
is_collection _ = false

-- The collection delivery of one page.
abbrev pub is_page_delivery : ℕ → ℕ → Delivery → Bool
is_page_delivery partition_id page d =
    d.partition_id == partition_id && is_collection d.kind && d.page_sequence == page

abbrev pub set_partition : ℕ → (Partition → Partition) → Db → Db
set_partition id g db = record db { partitions = update_where (λ p. p.id == id) g db.partitions }

abbrev pub set_delivery : ℕ → ℕ → (Delivery → Delivery) → Db → Db
set_delivery id page g db = record db {
  outbox = update_where (is_page_delivery id page) g db.outbox;
}

abbrev pub set_run : ℕ → (RunRow → RunRow) → Db → Db
set_run id g db = record db { runs = update_where (λ r. r.id == id) g db.runs }
