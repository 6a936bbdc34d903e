-- ===== src/Collection/Model.antt =====
-- The types of packages/domain/src/collection-state.ts, and the rows of the tables that
-- packages/database/src/collection-state.ts works on (packages/database/src/schema/index.ts). Times are
-- milliseconds; ids that the database draws are numbers.
use tech_p.Base.{ℕ, Bool, Option, List, Num, Date, Text}

pub data CollectionMode : Type 0 where
  backfill incremental on_demand : CollectionMode

pub data HistoryMode : Type 0 where
  historical_range paginated_history feed_only snapshot_only : HistoryMode

pub data TimeBasis : Type 0 where
  published_at updated_at observed_at : TimeBasis

pub data PartitionState : Type 0 where
  pending running deferred completed partial failed cancelled : PartitionState

pub data PageDisposition : Type 0 where
  continue complete deferred partial : PageDisposition

pub data CollectionError : Type 0 where
  invalid_window invalid_cursor stale_lease policy_blocked invalid_page not_found invalid_state :
      CollectionError
  -- a constraint of the schema that an insert violates
  unique_violation check_violation : CollectionError
  -- InvalidReplayRequestError
  invalid_replay : CollectionError

pub record TargetPolicy : Type 0 where
  pub approved : Bool
  pub fetch : Bool
  pub store : Bool
  pub embed : Bool
  pub model_input : Bool
  pub display_excerpt : Bool
  pub license_id : Option Text
  pub verbatim_only : Bool

-- `reviewed_at` is what `Date.parse` reads off the text, if there is a text that is not empty.
pub record TargetCapability : Type 0 where
  pub history_mode : HistoryMode
  pub time_basis : TimeBasis
  pub cursor_version : ℕ
  pub can_collect : Bool
  pub reviewed_at : Option Date

pub record TargetRevision : Type 0 where
  pub id : ℕ
  pub target_id : ℕ
  pub source_id : ℕ
  pub canonical_identity : Text
  pub capability : TargetCapability
  pub policy : TargetPolicy
  pub enabled : Bool
  pub cadence_ms : Option ℕ
  pub overlap_ms : ℕ

pub record CollectionWindow : Type 0 where
  pub from : Date
  pub to : Date

pub record PartitionPlan : Type 0 where
  pub target_revision_id : ℕ
  pub mode : CollectionMode
  pub scope_key : Text
  pub window : CollectionWindow
  pub time_basis : TimeBasis
  pub workflow_version : Text

-- A row of collection_partitions.
pub record Partition : Type 0 where
  pub id : ℕ
  pub natural_key : Text
  pub plan : PartitionPlan
  pub state : PartitionState
  pub page_sequence : ℕ
  pub cursor : Option Text
  pub lease_epoch : ℕ
  pub lease_until : Option ℕ
  pub next_due_at : ℕ
  pub reason : Option Text
  pub run_id : Option ℕ
  pub attempts : ℕ

pub data DeliveryKind : Type 0 where
  collection normalization embedding : DeliveryKind

-- What the natural key of a delivery is the hash of.
pub data DeliveryKey : Type 0 where
  collection_page : ℕ → ℕ → DeliveryKey
  normalization_of : ℕ → Text → DeliveryKey
  embedding_of : ℕ → DeliveryKey

-- A row of delivery_outbox.
pub record Delivery : Type 0 where
  pub id : ℕ
  pub natural_key : DeliveryKey
  pub kind : DeliveryKind
  pub partition_id : ℕ
  pub page_sequence : ℕ
  pub raw_item_id : Option ℕ
  pub revision_id : Option ℕ
  pub not_before : ℕ
  pub lease_epoch : ℕ
  pub lease_until : Option ℕ
  pub sent_at : Option ℕ
  pub completed_at : Option ℕ

pub record Claim : Type 0 where
  pub partition : Partition
  pub target : TargetRevision
  pub run_id : ℕ

-- A value of an item's metadata that the source declares.
pub data Meta : Type 0 where
  absent : Meta
  null : Meta
  flag : Bool → Meta
  text : Text → Meta
  other : Meta

-- `metadata.rightsMetadata`, once it is known to be an object.
pub record ItemRights : Type 0 where
  pub approved : Meta
  pub fetch : Meta
  pub store : Meta
  pub embed : Meta
  pub model_input : Meta
  pub display_excerpt : Meta
  pub verbatim_only : Meta
  pub license_id : Meta

pub data DeclaredRights : Type 0 where
  undeclared : DeclaredRights
  declared : ItemRights → DeclaredRights
  not_an_object : DeclaredRights

-- `new URL(canonicalUrl)` of an item, as far as the program looks at it.
pub data ItemUrl : Type 0 where
  not_text : ItemUrl
  unparsable : ItemUrl
  parsed : Text → Text → Text → ItemUrl

pub record RawItem : Type 0 where
  pub external_id : Text
  pub raw_hash : Text
  pub url : ItemUrl
  pub rights : DeclaredRights

pub record PageResult : Type 0 where
  pub items : List RawItem
  pub next_cursor : Option Text
  pub disposition : PageDisposition
  pub reason : Option Text
  pub retry_at : Option Date
  pub requests : Num
  pub bytes : Num
