-- ===== src/Collection/Paging.antt =====
-- The transactions under a lease of packages/database/src/collection-state.ts against the steps of
-- Collection/Lifecycle.antt.
use mathlib.Core.Path.{subst}
use tech_p.Base.{
  ℕ, ◌+◌, ◌≡◌, refl, sym, ◌∙◌, ap, Bool, true, false, not, Option, none, some, arith, update_where,
  ◌==◌, Text, Num, ok, throw_if, need, bind-eq-ok, throw_if-eq-ok, need-eq-ok, ◌||◌,
}
use tech_p.Collection.Model.{not_found, invalid_state, Partition, TargetRevision, Claim}
use tech_p.Collection.Policy.{assert_collectable}
use tech_p.Collection.Store.{
  Db, find_partition, read_target, fence_page, set_partition, is_running, has_expired,
}
use tech_p.Collection.Store.Renewing.{
  renew_page, renew_target, fail_page, resume_partition, failed_page, resumed, is_final,
}
use tech_p.Collection.Store.Leasing.{lease_duration}
use tech_p.Collection.Lifecycle.{Step, renew, fail, resume, Follows, Follows-update}
use tech_p.Collection.Refines.{
  Moves, Moves-of_same, fence_page-eq-ok, holds_lease-running, found_id, found_same,
  collection_delivery-partitions,
}

-- The update of the row that a fence let through, where a running row takes a step.
pub fenced-Follows :
    (c : Claim) (now : ℕ) (db : Db) (row : Partition) (g : Partition → Partition)
    → fence_page c now db ≡ ok row
    → ((p : Partition) → (g p).id ≡ p.id)
    → ((p : Partition) → is_running p.state ≡ true → Step p (g p))
    → Follows db.partitions (update_where (λ p. p.id == c.partition.id) g db.partitions)
fenced-Follows c now db row g e same st =
    let (found, held) = fence_page-eq-ok c now db row e in
    Follows-update c.partition.id g db.partitions same (λ p f.
      let this : row ≡ p = found_same c.partition.id db.partitions row p found f in
      st p (
        subst (λ (q : Partition). is_running q.state ≡ true) this
          (holds_lease-running row c now held)))

renew_target-Moves :
    (t : Option TargetRevision) (c : Claim) (now lease : ℕ) (db : Db) (b : Bool) (db' : Db)
    → renew_target t c now lease db ≡ ok (b, db')
    → Moves db db'
unfolding renew_target
renew_target-Moves none c now lease db b db' e =
    Moves-of_same db db' (let same : db ≡ db' = cc in ap (λ (d : Db). d.partitions) same)
renew_target-Moves (some target) c now lease db b db' e =
    let (_, _, e1) = bind-eq-ok (assert_collectable target) _ e in
    let (row, fenced, e2) = bind-eq-ok (fence_page c now db) _ e1 in
    let same : update_where (λ (p : Partition). p.id == c.partition.id)
          (λ (p : Partition). record p { lease_until = some (now + lease) }) db.partitions
        ≡ db'.partitions =
      cc in
    subst (λ ps. Follows db.partitions ps) same
      (fenced-Follows c now db row (λ p. record p { lease_until = some (now + lease) }) fenced
        (λ p. refl) (λ p h. renew p (now + lease) h))

-- A renewal extends the lease of a running partition.
pub renew_page-Moves :
    (c : Claim) (now : ℕ) (lease_ms : Num) (db : Db) (b : Bool) (db' : Db)
    → renew_page c now lease_ms db ≡ ok (b, db')
    → Moves db db'
unfolding renew_page
renew_page-Moves c now lease_ms db b db' e =
    let (lease, _, e1) = bind-eq-ok (need (lease_duration lease_ms) invalid_state) _ e in
    renew_target-Moves (read_target c.target.id db) c now lease db b db' e1

-- A failure takes the lease off a running partition.
pub fail_page-Moves :
    (c : Claim) (reason : Text) (retry_at : Option ℕ) (now : ℕ) (db db' : Db)
    → fail_page c reason retry_at now db ≡ ok db'
    → Moves db db'
unfolding fail_page
fail_page-Moves c reason retry_at now db db' e =
    let (row, fenced, e1) = bind-eq-ok (fence_page c now db) _ e in
    let (found, _) = fence_page-eq-ok c now db row fenced in
    let id : row.id ≡ c.partition.id = found_id c.partition.id db.partitions row found in
    let same : update_where (λ (p : Partition). p.id == row.id) (failed_page reason retry_at now)
          db.partitions
        ≡ db'.partitions =
      cc in
    subst (λ ps. Follows db.partitions ps)
      (ap
          (λ k.
            update_where (λ (p : Partition). p.id == k) (failed_page reason retry_at now)
              db.partitions)
          (sym id)
        ∙ same)
      (fenced-Follows c now db row (failed_page reason retry_at now) fenced (λ p. refl)
        (λ p h. fail p reason retry_at now h))

-- A resumption takes a partition that is not completed or partial back to pending.
pub resume_partition-Moves :
    (id now : ℕ) (db : Db) (p : Partition) (db' : Db)
    → resume_partition id now db ≡ ok (p, db')
    → Moves db db'
unfolding resume_partition
resume_partition-Moves id now db p db' e =
    let (row, found, e1) = bind-eq-ok (need (find_partition id db.partitions) not_found) _ e in
    let (target, _, e2) =
      bind-eq-ok (need (read_target row.plan.target_revision_id db) not_found) _ e1 in
    let (_, _, e3) = bind-eq-ok (assert_collectable target) _ e2 in
    let refused = is_final row.state || not (has_expired row.lease_until now) in
    let (_, open_row, e4) = bind-eq-ok (throw_if refused invalid_state) _ e3 in
    let pass = throw_if-eq-ok refused invalid_state open_row in
    let open_state : is_final row.state ≡ false = ground arith in
    let moved = set_partition id (resumed now) db in
    let same : moved.partitions ≡ db'.partitions =
      cc (e4, collection_delivery-partitions id row.page_sequence now moved) in
    subst (λ ps. Follows db.partitions ps) same
      (Follows-update id (resumed now) db.partitions (λ q. refl)
        (λ q f.
          let this : row ≡ q =
            found_same id db.partitions row q
              (need-eq-ok (find_partition id db.partitions) not_found found) f in
          resume q now (subst (λ (x : Partition). is_final x.state ≡ false) this open_state)))
