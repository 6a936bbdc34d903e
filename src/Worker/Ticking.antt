-- ===== src/Worker/Ticking.antt =====
-- What a tick of the runtime in apps/worker/src/partition-runtime.ts leaves.
use mathlib.Core.Path.{subst}
use tech_p.Base.{
  ℕ, ◌+◌, ◌-◌, ◌≡◌, sym, Option, none, some, List, [], ◌∷◌, arith, Text, Result, ok, err,
}
use tech_p.Collection.Model.{CollectionError, CollectionMode, Delivery, DeliveryKind}
use tech_p.Collection.Page.{CursorCodec}
use tech_p.Collection.Store.{Db}
use tech_p.Collection.Store.Outbox.{claim_deliveries, mark_sent}
use tech_p.Collection.Lifecycle.{Follows-refl, Follows-trans}
use tech_p.Collection.Refines.{Moves}
use tech_p.Collection.Traces
use tech_p.Collection.Traces.{run, run-Moves, run_all_refines, second, rolled_back}
use tech_p.Worker.Outcomes.{PageRun, PageReport}
use tech_p.Worker.Page.{execute_page}
use tech_p.Worker.Refining.{execute_page-calls}
use tech_p.Worker.Dispatch.{
  Handler, Dispatcher, CycleResult, if_handled, from_handler, by_kind, after_mark, dispatch_by,
  dispatch_all, after_claims, dispatch_batch, Counters, Cycle, after_general, after_backfill,
  after_incremental, tick, Tick, from_page, page_of,
}

-- What a tick leaves of the counters: it starts no lane that it does not end, and counts what its lanes have
-- processed if none of them throws.
abbrev pub Rested : Counters → Tick → Type 0
Rested counters (ok t, (end, db)) =
    (end.active_incremental ≡ counters.active_incremental)
    × (end.active_backfill ≡ counters.active_backfill)
    × (end.total_dispatched
        ≡ counters.total_dispatched
          + (t.incremental.processed_count + t.backfill.processed_count
              + t.general.processed_count))
Rested counters (err e, (end, db)) =
    (end.active_incremental ≡ counters.active_incremental)
    × (end.active_backfill ≡ counters.active_backfill)
    × (end.total_dispatched ≡ counters.total_dispatched)

module _ (codec : CursorCodec) (o : Dispatcher) where
  execute_page-Moves : (r : PageRun) (db : Db) → Moves db (execute_page codec r db).1
  execute_page-Moves r db =
      let (cs, same) = execute_page-calls codec r db in
      subst (Moves db) (sym same) (
        run_all_refines codec
          (Traces.claim r.partition_id r.page_sequence r.start_time r.lease_ms ∷ cs) db)

  from_page-Moves :
      (db : Db) (m : Result CollectionError PageReport × Db)
      → Moves db m.1
      → Moves db (from_page codec o m).1
  from_page-Moves db (ok report, end) h = h
  from_page-Moves db (err e, end) h = h

  from_handler-Moves : (db : Db) (m : Option Text × Db) → Moves db m.1 → Moves db (from_handler m).1
  from_handler-Moves db (none, end) h = h
  from_handler-Moves db (some message, end) h = h

  -- A handler that is plugged in moves partitions by steps of their life only.
  abbrev pub Behaves : Option Handler → Type 0
  Behaves none = Unit {0}
  Behaves (some handler) = (d : Delivery) (db : Db) → Moves db (handler d db).1

  abbrev pub Enqueues : Option (Option CollectionMode → Handler) → Type 0
  Enqueues none = Unit {0}
  Enqueues (some enqueue) = (lane : Option CollectionMode) → Behaves (some (enqueue lane))

  if_handled-Moves :
      (id : Option ℕ) (h : Option Handler) (d : Delivery) (db : Db)
      → Behaves h
      → Moves db (if_handled id h d db).1
  if_handled-Moves (some id) (some handler) d db b = from_handler-Moves db (handler d db) (b d db)
  if_handled-Moves (some id) none d db b = Follows-refl db.partitions
  if_handled-Moves none h d db b = Follows-refl db.partitions

  by_kind-Moves :
      (k : DeliveryKind) (d : Delivery) (db : Db)
      → Behaves o.normalization
      → Behaves o.embedding
      → Moves db (by_kind codec o k d db).1
  unfolding by_kind
  by_kind-Moves DeliveryKind.collection d db n e =
      let r = page_of codec o d in
      from_page-Moves db (execute_page codec r db) (execute_page-Moves r db)
  by_kind-Moves DeliveryKind.normalization d db n e =
      if_handled-Moves d.raw_item_id o.normalization d db n
  by_kind-Moves DeliveryKind.embedding d db n e = if_handled-Moves d.revision_id o.embedding d db e

  after_mark-Moves :
      (d : Delivery) (db : Db) (m : Result CollectionError Db)
      → Moves db (rolled_back db m)
      → Behaves o.normalization
      → Behaves o.embedding
      → Moves db (after_mark codec o d db m).1
  unfolding after_mark
  after_mark-Moves d db (err x) h n e = Follows-refl db.partitions
  after_mark-Moves d db (ok db') h n e =
      Follows-trans db.partitions db'.partitions (by_kind codec o d.kind d db').1.partitions h
        (by_kind-Moves d.kind d db' n e)

  dispatch_by-Moves :
      (q : Option (Option CollectionMode → Handler)) (lane : Option CollectionMode) (d : Delivery)
      (db : Db)
      → Enqueues q
      → Behaves o.normalization
      → Behaves o.embedding
      → Moves db (dispatch_by codec o q lane d db).1
  unfolding dispatch_by run
  dispatch_by-Moves (some enqueue) lane d db q n e =
      from_handler-Moves db (enqueue lane d db) (q lane d db)
  dispatch_by-Moves none lane d db q n e =
      after_mark-Moves d db (mark_sent d.id d.lease_epoch (o.mark_time d) db)
        (run-Moves codec (Traces.sent d.id d.lease_epoch (o.mark_time d)) db) n e

  module _ (q : Enqueues o.enqueue) (n : Behaves o.normalization) (e : Behaves o.embedding) where
    dispatch_all-Moves :
        (lane : Option CollectionMode) (ds : List Delivery) (db : Db)
        → Moves db (dispatch_all codec o lane ds db).1
    unfolding dispatch_all
    dispatch_all-Moves lane [] db = Follows-refl db.partitions
    dispatch_all-Moves lane (d ∷ ds) db =
        let (handled, db') = dispatch_by codec o o.enqueue lane d db in
        Follows-trans db.partitions db'.partitions (dispatch_all codec o lane ds db').1.partitions
          (dispatch_by-Moves o.enqueue lane d db q n e) (dispatch_all-Moves lane ds db')

    after_claims-Moves :
        (lane : Option CollectionMode) (db : Db) (m : Result CollectionError (List Delivery × Db))
        → Moves db (second db m)
        → Moves db (after_claims codec o lane db m).1
    unfolding after_claims
    after_claims-Moves lane db (err x) h = h
    after_claims-Moves lane db (ok (ds, mid)) h =
        Follows-trans db.partitions mid.partitions (dispatch_all codec o lane ds mid).1.partitions h
          (dispatch_all-Moves lane ds mid)

    dispatch_batch-Moves :
        (lane : Option CollectionMode) (now : ℕ) (db : Db)
        → Moves db (dispatch_batch codec o lane now db).1
    unfolding dispatch_batch run
    dispatch_batch-Moves lane now db =
        after_claims-Moves lane db (claim_deliveries now o.batch_limit o.lease_ms lane db)
          (run-Moves codec (Traces.claim_outbox now o.batch_limit o.lease_ms lane) db)

    -- The tables, and the counters where `i` and `j` lanes of the two kinds run.
    abbrev Running : ℕ → ℕ → Counters → Counters → Type 0
    Running i j base now =
        (now.active_incremental ≡ base.active_incremental + i)
        × (now.active_backfill ≡ base.active_backfill + j)
        × (now.total_dispatched ≡ base.total_dispatched)

    abbrev Settles : Counters → Db → Tick → Type 0
    Settles base db t = Moves db t.1.1 × Rested base t

    after_general-Settles :
        (base counters : Counters) (incremental backfill : CycleResult) (db : Db) (c : Cycle)
        → Running 0 0 base counters
        → Moves db c.1
        → Settles base db (after_general codec o incremental backfill counters c)
    unfolding after_general
    after_general-Settles base counters incremental backfill db (err x, end) (r, s, t) h =
        (h, (omega arith, omega arith, omega arith))
    after_general-Settles base counters incremental backfill db (ok general, end) (r, s, t) h =
        (h, (omega arith, omega arith, omega arith))

    after_backfill-Settles :
        (now : ℕ) (base counters : Counters) (incremental : CycleResult) (db : Db) (c : Cycle)
        → Running 0 1 base counters
        → Moves db c.1
        → Settles base db (after_backfill codec o now incremental counters c)
    unfolding after_backfill
    after_backfill-Settles now base counters incremental db (err x, end) (r, s, t) h =
        (h, (omega arith, omega arith, omega arith))
    after_backfill-Settles now base counters incremental db (ok backfill, end) (r, s, t) h =
        let next = dispatch_batch codec o none now end in
        after_general-Settles base
          (record counters { active_backfill = counters.active_backfill - 1 }) incremental backfill
          db next (omega arith, omega arith, omega arith)
          (Follows-trans db.partitions end.partitions next.1.partitions h
            (dispatch_batch-Moves none now end))

    after_incremental-Settles :
        (now2 now3 : ℕ) (base counters : Counters) (db : Db) (c : Cycle)
        → Running 1 0 base counters
        → Moves db c.1
        → Settles base db (after_incremental codec o now2 now3 counters c)
    unfolding after_incremental
    after_incremental-Settles now2 now3 base counters db (err x, end) (r, s, t) h =
        (h, (omega arith, omega arith, omega arith))
    after_incremental-Settles now2 now3 base counters db (ok incremental, end) (r, s, t) h =
        let lane = some CollectionMode.backfill in
        let next = dispatch_batch codec o lane now2 end in
        after_backfill-Settles now3 base
          (record counters {
            active_incremental = counters.active_incremental - 1;
            active_backfill = counters.active_backfill + 1;
          })
          incremental db next (omega arith, omega arith, omega arith)
          (Follows-trans db.partitions end.partitions next.1.partitions h
            (dispatch_batch-Moves lane now2 end))

  -- A tick, whatever its lanes claim and wherever it throws, moves partitions by steps of their life cycle
  -- only and leaves none out, if the handlers that are plugged in do; it starts no lane that it does not
  -- end; and it adds what its three lanes have processed to the total if it returns, and nothing if not.
  pub tick_comes_to_rest :
      (now1 now2 now3 : ℕ) (counters : Counters) (db : Db)
      → Enqueues o.enqueue
      → Behaves o.normalization
      → Behaves o.embedding
      → Moves db (tick codec o now1 now2 now3 counters db).1.1
        × Rested counters (tick codec o now1 now2 now3 counters db)
  unfolding tick
  tick_comes_to_rest now1 now2 now3 counters db q n e =
      let lane = some CollectionMode.incremental in
      after_incremental-Settles q n e now2 now3 counters
        (record counters { active_incremental = counters.active_incremental + 1 }) db
        (dispatch_batch codec o lane now1 db) (omega arith, omega arith, omega arith)
        (dispatch_batch-Moves q n e lane now1 db)
