-- ===== src/Worker/Dispatch.antt =====
-- OutboxDispatcher.dispatchBatch and PartitionRuntime.tick of apps/worker/src/partition-runtime.ts. The handlers
-- that are plugged in are functions on the tables: the message of what they throw, if they do, and what
-- they leave.
use tech_p.Base.{ℕ, ◌+◌, ◌-◌, Option, none, some, List, [], ◌∷◌, length, Num, Text, Result, ok, err}
use tech_p.Collection.Model.{CollectionError, CollectionMode, Delivery, DeliveryKind}
use tech_p.Collection.Page.{CursorCodec}
use tech_p.Collection.Store.{Db}
use tech_p.Collection.Store.Outbox.{claim_deliveries, mark_sent}
use tech_p.Worker.Outcomes.{PageRun, PageReport, message_of}
use tech_p.Worker.Page.{execute_page}

abbrev pub Handler : Type 0
Handler = Delivery → Db → Option Text × Db

-- OutboxDispatcherOptions, with the time at which each delivery is marked and what becomes of each page.
pub record Dispatcher : Type 0 where
  pub enqueue : Option (Option CollectionMode → Handler)
  pub normalization : Option Handler
  pub embedding : Option Handler
  pub page_run : Delivery → PageRun
  pub mark_time : Delivery → ℕ
  pub lease_ms : Num
  pub batch_limit : Num
  pub violation_message : Text

-- What becomes of a delivery: it is processed, it has no handler, or there is an error.
pub data Handled : Type 0 where
  processed unhandled : Handled
  threw : Text → Handled

-- DispatchCycleResult
pub record CycleResult : Type 0 where
  pub claimed_count : ℕ
  pub processed_count : ℕ
  pub failures : List (ℕ × Text)

abbrev pub from_handler : Option Text × Db → Handled × Db
from_handler (none, db) = (processed, db)
from_handler (some message, db) = (threw message, db)

-- `&& delivery.rawItemId` and the test for a handler.
abbrev pub if_handled : Option ℕ → Option Handler → Delivery → Db → Handled × Db
if_handled (some id) (some handler) d db = from_handler (handler d db)
if_handled (some id) none d db = (unhandled, db)
if_handled none handler d db = (unhandled, db)

-- The counts and failures of a cycle, with one delivery more at its start.
unfoldable pub reckon : ℕ → Handled → CycleResult → CycleResult
reckon id processed result = record result { processed_count = result.processed_count + 1 }
reckon id unhandled result = result
reckon id (threw message) result = record result { failures = (id, message) ∷ result.failures }

abbrev pub Cycle : Type 0
Cycle = Result CollectionError CycleResult × Db

-- The counters of PartitionRuntime.
pub record Counters : Type 0 where
  pub active_incremental : ℕ
  pub active_backfill : ℕ
  pub total_dispatched : ℕ

pub record TickResult : Type 0 where
  pub incremental : CycleResult
  pub backfill : CycleResult
  pub general : CycleResult

abbrev pub Tick : Type 0
Tick = Result CollectionError TickResult × (Counters × Db)

module _ (codec : CursorCodec) (o : Dispatcher) where
  -- The report of a page is not looked at.
  abbrev pub from_page : Result CollectionError PageReport × Db → Handled × Db
  from_page (ok report, db) = (processed, db)
  from_page (err e, db) = (threw (message_of o.violation_message e), db)

  abbrev pub page_of : Delivery → PageRun
  page_of d = record (o.page_run d) {
    partition_id = d.partition_id;
    page_sequence = d.page_sequence;
  }

  unfoldable pub by_kind : DeliveryKind → Delivery → Db → Handled × Db
  by_kind DeliveryKind.collection d db = from_page (execute_page codec (page_of d) db)
  by_kind DeliveryKind.normalization d db = if_handled d.raw_item_id o.normalization d db
  by_kind DeliveryKind.embedding d db = if_handled d.revision_id o.embedding d db

  unfoldable pub after_mark : Delivery → Db → Result CollectionError Db → Handled × Db
  unfolding by_kind
  after_mark d db (err e) = (threw (message_of o.violation_message e), db)
  after_mark d db (ok db') = by_kind d.kind d db'

  unfoldable pub dispatch_by :
      Option (Option CollectionMode → Handler)
      → Option CollectionMode
      → Delivery
      → Db
      → Handled × Db
  unfolding after_mark
  dispatch_by (some enqueue) lane d db = from_handler (enqueue lane d db)
  dispatch_by none lane d db = after_mark d db (mark_sent d.id d.lease_epoch (o.mark_time d) db)

  -- The loop over the deliveries.
  unfoldable pub dispatch_all : Option CollectionMode → List Delivery → Db → CycleResult × Db
  unfolding dispatch_by reckon
  dispatch_all lane [] db = (record { claimed_count = 0; processed_count = 0; failures = [] }, db)
  dispatch_all lane (d ∷ ds) db =
      let (handled, db') = dispatch_by o.enqueue lane d db in
      let (result, end) = dispatch_all lane ds db' in (reckon d.id handled result, end)

  unfoldable pub after_claims :
      Option CollectionMode → Db → Result CollectionError (List Delivery × Db) → Cycle
  unfolding dispatch_all
  after_claims lane db (err e) = (err e, db)
  after_claims lane db (ok (ds, db')) =
      let (result, end) = dispatch_all lane ds db' in
      (ok (record result { claimed_count = length ds }), end)

  unfoldable pub dispatch_batch : Option CollectionMode → ℕ → Db → Cycle
  unfolding after_claims
  dispatch_batch lane now db =
      after_claims lane db (claim_deliveries now o.batch_limit o.lease_ms lane db)

  -- The third lane, and the sum.
  unfoldable pub after_general : CycleResult → CycleResult → Counters → Cycle → Tick
  after_general incremental backfill counters (err e, db) = (err e, (counters, db))
  after_general incremental backfill counters (ok general, db) = (
    ok (record { incremental = incremental; backfill = backfill; general = general }),
    (
      record counters {
        total_dispatched =
            counters.total_dispatched
            + (incremental.processed_count + backfill.processed_count + general.processed_count);
      },
      db,
    ),
  )

  -- The `finally` of the second lane.
  unfoldable pub after_backfill : ℕ → CycleResult → Counters → Cycle → Tick
  unfolding dispatch_batch after_general
  after_backfill now incremental counters (err e, db) =
      (err e, (record counters { active_backfill = counters.active_backfill - 1 }, db))
  after_backfill now incremental counters (ok backfill, db) =
      after_general incremental backfill
        (record counters { active_backfill = counters.active_backfill - 1 })
        (dispatch_batch none now db)

  -- The `finally` of the first lane, and the start of the second.
  unfoldable pub after_incremental : ℕ → ℕ → Counters → Cycle → Tick
  unfolding dispatch_batch after_backfill
  after_incremental now2 now3 counters (err e, db) =
      (err e, (record counters { active_incremental = counters.active_incremental - 1 }, db))
  after_incremental now2 now3 counters (ok incremental, db) =
      after_backfill now3 incremental
        (record counters {
          active_incremental = counters.active_incremental - 1;
          active_backfill = counters.active_backfill + 1;
        })
        (dispatch_batch (some CollectionMode.backfill) now2 db)

  -- `tick`, with what the clock reads at the start of each lane.
  unfoldable pub tick : ℕ → ℕ → ℕ → Counters → Db → Tick
  unfolding dispatch_batch after_incremental
  tick now1 now2 now3 counters db =
      after_incremental now2 now3
        (record counters { active_incremental = counters.active_incremental + 1 })
        (dispatch_batch (some CollectionMode.incremental) now1 db)
