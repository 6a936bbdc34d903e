-- ===== src/Collection/Refines.antt =====
-- Planning and claiming in packages/database/src/collection-state.ts against the steps of
-- Collection/Lifecycle.antt.
use mathlib.Core.Path.{subst}
use tech_p.Base.{
  ℕ, ◌+◌, ◌≡◌, refl, sym, ◌∙◌, ap, true, not, Option, none, some, List, arith, find, any,
  update_where, ◌==◌, inl, inr, Bool-cases, find-append_old, find_sound, Text, Num, ok, throw_if,
  need, bind-eq-ok, throw_if-eq-ok, need-eq-ok, eq_text, ◌&&◌,
}
use tech_p.Collection.Model.{
  invalid_window, not_found, invalid_state, unique_violation, Partition, PartitionPlan,
  TargetRevision, Claim, DeliveryKey, DeliveryKind,
}
use tech_p.Collection.Policy.{assert_collectable}
use tech_p.Collection.Page.{CursorCodec, natural_key, decode_page_cursor}
use tech_p.Collection.Store.{
  Db, find_partition, read_target, fence_page, holds_lease, collection_delivery, insert_delivery,
  is_running,
}
use tech_p.Collection.Store.Leasing.{
  plan_partition, claim_page, claim_found, claim_row, write_claim, lease_duration, insert_partition,
  may_claim, same_basis, is_claimable, leased,
}
use tech_p.Collection.Lifecycle.{here, claim, Follows, Follows-refl, Follows-update}

-- `Follows` between the partitions of two databases.
abbrev pub Moves : Db → Db → Type 0
Moves db db' = Follows db.partitions db'.partitions

pub Moves-of_same : (db db' : Db) → db.partitions ≡ db'.partitions → Moves db db'
Moves-of_same db db' e = subst (λ ps. Follows db.partitions ps) e (Follows-refl db.partitions)

pub insert_delivery-partitions :
    (key : DeliveryKey) (kind : DeliveryKind) (id page : ℕ) (raw rev : Option ℕ) (t : ℕ) (db : Db)
    → (insert_delivery key kind id page raw rev t db).partitions ≡ db.partitions
unfolding insert_delivery
insert_delivery-partitions key kind id page raw rev t db = ground arith

pub collection_delivery-partitions :
    (id page t : ℕ) (db : Db) → (collection_delivery id page t db).partitions ≡ db.partitions
unfolding collection_delivery
collection_delivery-partitions id page t db = ground arith

-- The lease that `fence_page` lets through is that of a running partition.
pub fence_page-eq-ok :
    (c : Claim) (now : ℕ) (db : Db) (row : Partition)
    → fence_page c now db ≡ ok row
    → (find_partition c.partition.id db.partitions ≡ some row) × (holds_lease row c now ≡ true)
unfolding fence_page
fence_page-eq-ok c now db row e =
    let (p, found, f) = bind-eq-ok (need (find_partition c.partition.id db.partitions) _) _ e in
    let (_, held, g) = bind-eq-ok (throw_if (not (holds_lease p c now)) _) _ f in
    let same : p ≡ row = cc in
    let pass = throw_if-eq-ok (not (holds_lease p c now)) _ held in
    (need-eq-ok (find_partition c.partition.id db.partitions) _ found ∙ ap some same, ground arith)

pub holds_lease-running :
    (row : Partition) (c : Claim) (now : ℕ)
    → holds_lease row c now ≡ true
    → is_running row.state ≡ true
unfolding holds_lease
holds_lease-running row c now h = ground arith

pub found_id :
    (id : ℕ) (ps : List Partition) (p : Partition) → find_partition id ps ≡ some p → p.id ≡ id
found_id id ps p e = let hit = find_sound (λ (x : Partition). x.id == id) ps p e in ground arith

-- The row that a search finds is the row that was found before.
pub found_same :
    (id : ℕ) (ps : List Partition) (p q : Partition)
    → find_partition id ps ≡ some p
    → find_partition id ps ≡ some q
    → p ≡ q
found_same id ps p q e f = cc

insert_partition-Moves :
    (key : Text) (plan : PartitionPlan) (now : ℕ) (db : Db)
    → Moves db (insert_partition key plan now db)
unfolding insert_partition
insert_partition-Moves key plan now db =
    elim (Bool-cases (any (λ (p : Partition). eq_text p.natural_key key) db.partitions)) [
      | inl old ↦ rw old (Follows-refl db.partitions)
      | inr new ↦
          rw new (λ id p e.
            (p, find-append_old (λ (x : Partition). x.id == id) db.partitions _ p e, here))
    ]

may_claim-claimable :
    (row : Partition) (page now : ℕ) → may_claim row page now ≡ true → is_claimable row.state ≡ true
unfolding may_claim
may_claim-claimable row page now h = ground arith

module _ (codec : CursorCodec) where
  -- Planning adds a partition, or finds the one that is there.
  pub plan_partition-Moves :
      (plan : PartitionPlan) (now : ℕ) (db : Db) (row : Partition) (db' : Db)
      → plan_partition codec plan now db ≡ ok (row, db')
      → Moves db db'
  unfolding plan_partition
  plan_partition-Moves plan now db row db' e =
      let (key, _, e1) = bind-eq-ok (natural_key codec plan) _ e in
      let (target, _, e2) = bind-eq-ok (need (read_target plan.target_revision_id db) _) _ e1 in
      let planned = insert_partition key plan now db in
      let (_, _, e3) = bind-eq-ok (assert_collectable target) _ e2 in
      let (_, _, e4) =
        bind-eq-ok
          (throw_if (not (same_basis target.capability.time_basis plan.time_basis)) invalid_window)
          _ e3 in
      let (r, _, e5) =
        bind-eq-ok
          (need (find (λ (p : Partition). eq_text p.natural_key key) planned.partitions) not_found)
          _ e4 in
      let same : planned.partitions ≡ db'.partitions =
        ground (arith, collection_delivery-partitions r.id r.page_sequence r.next_due_at planned) in
      subst (λ ps. Follows db.partitions ps) same (insert_partition-Moves key plan now db)

  write_claim-Moves :
      (target : TargetRevision) (row : Partition) (now lease : ℕ) (db : Db) (c : Option Claim)
      (db' : Db)
      → find_partition row.id db.partitions ≡ some row
      → is_claimable row.state ≡ true
      → write_claim target row now lease db ≡ ok (c, db')
      → Moves db db'
  unfolding write_claim
  write_claim-Moves target row now lease db c db' found open_state e =
      let (_, _, e1) =
        bind-eq-ok
          (throw_if
            (any (λ a. a.partition_id == row.id && a.lease_epoch == row.lease_epoch + 1)
              db.attempts)
            unique_violation)
          _ e in
      let same : update_where (λ (p : Partition). p.id == row.id) (leased db.next_id (now + lease))
            db.partitions
          ≡ db'.partitions =
        cc in
      subst (λ ps. Follows db.partitions ps) same
        (Follows-update row.id (leased db.next_id (now + lease)) db.partitions (λ p. refl)
          (λ p f.
            let this : row ≡ p = found_same row.id db.partitions row p found f in
            claim p db.next_id (now + lease)
              (subst (λ (q : Partition). is_claimable q.state ≡ true) this open_state)))

  claim_found-Moves :
      (t : Option TargetRevision) (row : Partition) (page now lease : ℕ) (db : Db)
      (c : Option Claim) (db' : Db)
      → find_partition row.id db.partitions ≡ some row
      → claim_found codec t row page now lease db ≡ ok (c, db')
      → Moves db db'
  unfolding claim_found
  claim_found-Moves none row page now lease db c db' found e =
      Moves-of_same db db' (let same : db ≡ db' = cc in ap (λ (d : Db). d.partitions) same)
  claim_found-Moves (some target) row page now lease db c db' found e =
      let (_, _, e1) = bind-eq-ok (assert_collectable target) _ e in
      elim (Bool-cases (may_claim row page now)) [
        | inl may ↦
            let (_, _, e2) =
              bind-eq-ok
                (decode_page_cursor codec row.plan row.cursor target.capability.cursor_version) _
                (rw may at e1) in
            write_claim-Moves target row now lease db c db' found
              (may_claim-claimable row page now may) e2
        | inr not_now ↦
            let e2 = rw not_now at e1 in
            Moves-of_same db db' (let same : db ≡ db' = cc in ap (λ (d : Db). d.partitions) same)
      ]

  -- A claim leases a partition that is pending, running or deferred.
  pub claim_page-Moves :
      (id page now : ℕ) (lease_ms : Num) (db : Db) (c : Option Claim) (db' : Db)
      → claim_page codec id page now lease_ms db ≡ ok (c, db')
      → Moves db db'
  unfolding claim_page claim_row
  claim_page-Moves id page now lease_ms db c db' e =
      let (lease, _, e1) = bind-eq-ok (need (lease_duration lease_ms) invalid_state) _ e in
      go lease (find_partition id db.partitions) refl e1
    where
      go :
          (lease : ℕ) (o : Option Partition)
          → find_partition id db.partitions ≡ o
          → claim_row codec o page now lease db ≡ ok (c, db')
          → Moves db db'
      go lease none f e1 =
          Moves-of_same db db' (let same : db ≡ db' = cc in ap (λ (d : Db). d.partitions) same)
      go lease (some row) f e1 =
          claim_found-Moves (read_target row.plan.target_revision_id db) row page now lease db c db'
            (subst (λ k. find_partition k db.partitions ≡ some row)
              (sym (found_id id db.partitions row f)) f)
            e1
