-- ===== src/Collection/Traces.antt =====
-- All the transactions of packages/database/src/collection-state.ts as calls, and runs of them in any
-- order from any number of workers. A call that throws is rolled back.
use tech_p.Base.{
  ℕ, ◌≡◌, refl, sym, ◌∙◌, ap, Bool, ◌&&◌, true, not, Option, none, some, List, [], ◌∷◌, find, any,
  keep_if, length, is_some, update_where, ◌==◌, Text, Num, safe_nat, Bool-cases, inl, inr, Result,
  ok, err, throw_if, need, bind-eq-ok, ok_injective,
}
use tech_p.Collection.Model.{
  CollectionError, invalid_state, not_found, stale_lease, CollectionMode, Claim, Partition,
  PageResult, PartitionPlan, Delivery, DeliveryKind, embedding_of,
}
use tech_p.Collection.Page.{CursorCodec}
use tech_p.Collection.Store.{Db, MembershipRow, find_partition}
use tech_p.Collection.Store.Renewing.{renew_page, fail_page, resume_partition, is_final}
use tech_p.Collection.Store.Leasing.{plan_partition, claim_page, lease_duration}
use tech_p.Collection.Store.Commit.{commit_page}
use tech_p.Collection.Store.Outbox.{
  claim_deliveries, in_limit, mark_sent, may_mark, complete_delivery, attach_revision,
  deliver_embeddings, is_done,
}
use tech_p.Collection.Store.Targets.{TargetInput, register_target, set_target_enabled}
use tech_p.Collection.Store.Replaying.{ReplayScope, replan}
use tech_p.Collection.Replays.{replan-partitions}
use tech_p.Collection.Registering.{register_target-partitions, set_target_enabled-partitions}
use tech_p.Collection.Lifecycle.{Follows-refl, Follows-trans, Reach-final}
use tech_p.Collection.Refines.{
  Moves, Moves-of_same, plan_partition-Moves, claim_page-Moves, insert_delivery-partitions,
}
use tech_p.Collection.Paging.{renew_page-Moves, fail_page-Moves, resume_partition-Moves}
use tech_p.Collection.Committing.{commit_page-Moves}

claim_deliveries-partitions :
    (now : ℕ) (limit lease_ms : Num) (lane : Option CollectionMode) (db : Db) (ds : List Delivery)
    (db' : Db)
    → claim_deliveries now limit lease_ms lane db ≡ ok (ds, db')
    → db.partitions ≡ db'.partitions
unfolding claim_deliveries
claim_deliveries-partitions now limit lease_ms lane db ds db' e =
    let (n, _, e1) = bind-eq-ok (need (in_limit (safe_nat limit)) invalid_state) _ e in
    let (lease, _, e2) = bind-eq-ok (need (lease_duration lease_ms) invalid_state) _ e1 in
    ap (λ (x : List Delivery × Db). x.1.partitions) (ok_injective e2)

mark_sent-partitions :
    (id epoch now : ℕ) (db db' : Db)
    → mark_sent id epoch now db ≡ ok db'
    → db.partitions ≡ db'.partitions
unfolding mark_sent
mark_sent-partitions id epoch now db db' e =
    let (_, _, e1) =
      bind-eq-ok
        (throw_if (not (length (keep_if (may_mark id epoch now) db.outbox) == 1)) stale_lease) _
        e in
    ap (λ (d : Db). d.partitions) (ok_injective e1)

complete_delivery-partitions :
    (id : ℕ) (done : Bool) (now : ℕ) (db db' : Db)
    → complete_delivery id done now db ≡ ok db'
    → db.partitions ≡ db'.partitions
unfolding complete_delivery
complete_delivery-partitions id done now db db' e =
    let (d, _, e1) =
      bind-eq-ok (need (find (λ (x : Delivery). x.id == id) db.outbox) not_found) _ e in
    elim (Bool-cases (is_some d.completed_at)) [
      | inl old ↦ ap (λ (x : Db). x.partitions) (ok_injective (rw old at e1))
      | inr new ↦
          let e2 = rw new at e1 in
          let (_, _, e3) =
            bind-eq-ok (throw_if (not (is_done d.kind done d db)) invalid_state) _ e2 in
          ap (λ (x : Db). x.partitions) (ok_injective e3)
    ]

deliver_embeddings-partitions :
    (revision now : ℕ) (ms : List MembershipRow) (db : Db)
    → (deliver_embeddings revision now ms db).partitions ≡ db.partitions
unfolding deliver_embeddings
deliver_embeddings-partitions revision now [] db = refl
deliver_embeddings-partitions revision now (m ∷ ms) db =
    deliver_embeddings-partitions revision now ms _
    ∙ insert_delivery-partitions (embedding_of revision) DeliveryKind.embedding m.partition_id 0
        none (some revision) now db

attach_revision-partitions :
    (raw revision now : ℕ) (db db' : Db)
    → attach_revision raw revision now db ≡ ok db'
    → db.partitions ≡ db'.partitions
unfolding attach_revision
attach_revision-partitions raw revision now db db' e =
    let (_, _, e1) =
      bind-eq-ok
        (throw_if (not (any (λ d. d.id == revision && d.raw_item_id == raw) db.documents))
          not_found)
        _ e in
    let attached = record db {
      memberships =
          update_where (λ (m : MembershipRow). m.raw_item_id == raw)
            (λ m. record m { revision_id = some revision }) db.memberships;
    } in
    sym (
      deliver_embeddings-partitions revision now
        (keep_if (λ (m : MembershipRow). m.raw_item_id == raw) attached.memberships) attached)
    ∙ ap (λ (x : Db). x.partitions) (ok_injective e1)

pub data Call : Type 0 where
  plan : PartitionPlan → ℕ → Call
  claim : ℕ → ℕ → ℕ → Num → Call
  renew : Claim → ℕ → Num → Call
  commit : Claim → PageResult → ℕ → Call
  fail : Claim → Text → Option ℕ → ℕ → Call
  resume : ℕ → ℕ → Call
  claim_outbox : ℕ → Num → Num → Option CollectionMode → Call
  sent : ℕ → ℕ → ℕ → Call
  delivered : ℕ → Bool → ℕ → Call
  attach : ℕ → ℕ → ℕ → Call
  register : TargetInput → Call
  enable : ℕ → Bool → Call
  replay : ReplayScope → ℕ → ℕ → Call

abbrev pub rolled_back : Db → Result CollectionError Db → Db
rolled_back db (ok db') = db'
rolled_back db (err e) = db

abbrev pub second : {A : Type 0} → Db → Result CollectionError (A × Db) → Db
second db (ok (a, db')) = db'
second db (err e) = db

rolled_back-Moves :
    (db : Db) (m : Result CollectionError Db)
    → ((db' : Db) → m ≡ ok db' → Moves db db')
    → Moves db (rolled_back db m)
rolled_back-Moves db (ok db') h = h db' refl
rolled_back-Moves db (err e) h = Follows-refl db.partitions

second-Moves :
    {A : Type 0} (db : Db) (m : Result CollectionError (A × Db))
    → ((a : A) (db' : Db) → m ≡ ok (a, db') → Moves db db')
    → Moves db (second db m)
second-Moves db (ok (a, db')) h = h a db' refl
second-Moves db (err e) h = Follows-refl db.partitions

module _ (codec : CursorCodec) where
  unfoldable pub run : Call → Db → Db
  run (plan p now) db = second db (plan_partition codec p now db)
  run (claim id page now lease) db = second db (claim_page codec id page now lease db)
  run (renew c now lease) db = second db (renew_page c now lease db)
  run (commit c result now) db = rolled_back db (commit_page codec c result now db)
  run (fail c reason retry_at now) db = rolled_back db (fail_page c reason retry_at now db)
  run (resume id now) db = second db (resume_partition id now db)
  run (claim_outbox now limit lease lane) db = second db (claim_deliveries now limit lease lane db)
  run (sent id epoch now) db = rolled_back db (mark_sent id epoch now db)
  run (delivered id done now) db = rolled_back db (complete_delivery id done now db)
  run (attach raw revision now) db = rolled_back db (attach_revision raw revision now db)
  run (register input) db = second db (register_target input db)
  run (enable id enabled) db = rolled_back db (set_target_enabled id enabled db)
  run (replay scope id now) db = second db (replan scope id now db)

  unfoldable pub run_all : List Call → Db → Db
  unfolding run
  run_all [] db = db
  run_all (c ∷ cs) db = run_all cs (run c db)

  pub run-Moves : (c : Call) (db : Db) → Moves db (run c db)
  unfolding run
  run-Moves (plan p now) db = second-Moves db _ (plan_partition-Moves codec p now db)
  run-Moves (claim id page now lease) db =
      second-Moves db _ (claim_page-Moves codec id page now lease db)
  run-Moves (renew c now lease) db = second-Moves db _ (renew_page-Moves c now lease db)
  run-Moves (commit c result now) db =
      rolled_back-Moves db _ (commit_page-Moves codec c result now db)
  run-Moves (fail c reason retry_at now) db =
      rolled_back-Moves db _ (fail_page-Moves c reason retry_at now db)
  run-Moves (resume id now) db = second-Moves db _ (resume_partition-Moves id now db)
  run-Moves (claim_outbox now limit lease lane) db = second-Moves db _ (λ ds db' e.
      Moves-of_same db db' (claim_deliveries-partitions now limit lease lane db ds db' e))
  run-Moves (sent id epoch now) db =
      rolled_back-Moves db _
        (λ db' e. Moves-of_same db db' (mark_sent-partitions id epoch now db db' e))
  run-Moves (delivered id done now) db =
      rolled_back-Moves db _
        (λ db' e. Moves-of_same db db' (complete_delivery-partitions id done now db db' e))
  run-Moves (attach raw revision now) db =
      rolled_back-Moves db _
        (λ db' e. Moves-of_same db db' (attach_revision-partitions raw revision now db db' e))
  run-Moves (register input) db =
      second-Moves db _
        (λ r db' e. Moves-of_same db db' (register_target-partitions input db r db' e))
  run-Moves (enable id enabled) db =
      rolled_back-Moves db _
        (λ db' e. Moves-of_same db db' (set_target_enabled-partitions id enabled db db' e))
  run-Moves (replay scope id now) db =
      second-Moves db _
        (λ r db' e. Moves-of_same db db' (replan-partitions scope id now db r db' e))

  -- The detailed transactions refine the life cycle of a partition: whatever calls are made, a
  -- partition that was there is there afterwards, and its row got there by steps of that life cycle.
  pub run_all_refines : (cs : List Call) (db : Db) → Moves db (run_all cs db)
  unfolding run_all
  run_all_refines [] db = Follows-refl db.partitions
  run_all_refines (c ∷ cs) db =
      Follows-trans db.partitions (run c db).partitions (run_all cs (run c db)).partitions
        (run-Moves c db) (run_all_refines cs (run c db))

  -- A partition that is completed or partial is never written again: no calls change its row.
  pub final_is_frozen :
      (cs : List Call) (db : Db) (id : ℕ) (p : Partition)
      → find_partition id db.partitions ≡ some p
      → is_final p.state ≡ true
      → find_partition id (run_all cs db).partitions ≡ some p
  final_is_frozen cs db id p e h =
      let (q, f, r) = run_all_refines cs db id p e in f ∙ ap some (sym (Reach-final h r))
