-- ===== src/Collection/Replays.antt =====
-- The replay of packages/database/src/collection-state.ts leaves the partitions alone.
use tech_p.Base.{
  ℕ, ◌≡◌, sym, ◌∙◌, ap, true, not, none, some, List, [], ◌∷◌, find, ok, throw_if, need, bind-eq-ok,
  ok_injective, arith,
}
use tech_p.Collection.Model.{not_found, invalid_replay, Delivery, normalization}
use tech_p.Collection.Policy.{assert_collectable}
use tech_p.Collection.Store.{Db, eq_key, insert_delivery, read_target}
use tech_p.Collection.Store.Replaying.{
  ReplayScope, ReplayRow, ReplayResult, replay_rows, replay_key, replay_row, replay_all,
  reset_delivery, in_replay_range, replan,
}
use tech_p.Collection.Refines.{insert_delivery-partitions}

reset_delivery-partitions :
    (d : Delivery) (now : ℕ) (db : Db) → (reset_delivery d now db).partitions ≡ db.partitions
reset_delivery-partitions d now db = ground arith

replay_row-partitions :
    (row : ReplayRow) (now : ℕ) (r r' : ReplayResult) (db db' : Db)
    → replay_row row now r db ≡ ok (r', db')
    → db.partitions ≡ db'.partitions
unfolding replay_row
replay_row-partitions row now r r' db db' e =
    let (target, _, e1) = bind-eq-ok (need (read_target row.target_revision_id db) not_found) _ e in
    let (_, _, e2) = bind-eq-ok (assert_collectable target) _ e1 in
    let stored =
      insert_delivery (replay_key row) normalization row.partition_id row.page_sequence
        (some row.raw_item_id) none now db in
    let (d, _, e3) =
      bind-eq-ok
        (need (find (λ (x : Delivery). eq_key x.natural_key (replay_key row)) stored.outbox)
          not_found)
        _ e2 in
    sym (
      insert_delivery-partitions (replay_key row) normalization row.partition_id row.page_sequence
        (some row.raw_item_id) none now db)
    ∙ (sym (reset_delivery-partitions d now stored)
        ∙ ap (λ (x : ReplayResult × Db). x.1.partitions) (ok_injective e3))

replay_all-partitions :
    (rows : List ReplayRow) (now : ℕ) (r r' : ReplayResult) (db db' : Db)
    → replay_all rows now r db ≡ ok (r', db')
    → db.partitions ≡ db'.partitions
unfolding replay_all
replay_all-partitions [] now r r' db db' e =
    ap (λ (x : ReplayResult × Db). x.1.partitions) (ok_injective e)
replay_all-partitions (row ∷ rows) now r r' db db' e =
    let ((r1, db1), first, rest) = bind-eq-ok (replay_row row now r db) _ e in
    replay_row-partitions row now r r1 db db1 first
    ∙ replay_all-partitions rows now r1 r' db1 db' rest

pub replan-partitions :
    (scope : ReplayScope) (id now : ℕ) (db : Db) (r : ReplayResult) (db' : Db)
    → replan scope id now db ≡ ok (r, db')
    → db.partitions ≡ db'.partitions
unfolding replan
replan-partitions scope id now db r db' e =
    let rows = replay_rows scope id db.memberships db in
    let (_, _, e1) = bind-eq-ok (throw_if (not (in_replay_range rows)) invalid_replay) _ e in
    replay_all-partitions rows now (record { duplicate = true; delivery_ids = [] }) r db db' e1
