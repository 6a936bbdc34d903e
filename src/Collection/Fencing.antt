-- ===== src/Collection/Fencing.antt =====
-- The leases of claimPage, renewPage, commitPage and failPage in
-- packages/database/src/collection-state.ts: who holds a page, and what an old claim can still do.
use mathlib.Core.Path.{subst}
use tech_p.Base.{
  ℕ, ◌≤◌, ◌<◌, ◌≡◌, ◌≢◌, refl, sym, ◌∙◌, ap, Bool, true, Option, none, some, List, arith,
  find-update_where, ◌==◌, Text, Num, if◌then◌else◌, Result, ok, err, need, bind-eq-ok,
  ok_injective,
}
use mathlib.Core.Option
use tech_p.Collection.Model.{
  CollectionError, invalid_state, stale_lease, Claim, Partition, PageResult, TargetRevision,
}
use tech_p.Collection.Policy.{assert_collectable}
use tech_p.Collection.Page.{CursorCodec}
use tech_p.Collection.Store.{Db, find_partition, read_target, fence_page, holds_lease}
use tech_p.Collection.Store.Renewing.{renew_page, renew_target, fail_page}
use tech_p.Collection.Store.Leasing.{claim_page, may_claim, lease_duration}
use tech_p.Collection.Store.Commit.{commit_page, advanced}
use tech_p.Collection.Lifecycle.{Later-Reach}
use tech_p.Collection.Refines.{fence_page-eq-ok, found_id, found_same}
use tech_p.Collection.Claiming.{claim_page-Claimed}
use tech_p.Collection.Committing.{commit_page-eq-ok, commit_page-partitions}
use tech_p.Collection.Traces
use tech_p.Collection.Traces.{Call, run, run_all, run_all_refines}

-- A claim whose epoch is not the row's is refused.
fenced_by_epoch :
    (c : Claim) (now : ℕ) (db : Db) (row : Partition)
    → find_partition c.partition.id db.partitions ≡ some row
    → c.partition.lease_epoch < row.lease_epoch
    → fence_page c now db ≡ err stale_lease
unfolding fence_page holds_lease
fenced_by_epoch c now db row found old = rw found (ground arith)

-- So is one whose page is behind the row's.
fenced_by_page :
    (c : Claim) (now : ℕ) (db : Db) (row : Partition)
    → find_partition c.partition.id db.partitions ≡ some row
    → c.partition.page_sequence < row.page_sequence
    → fence_page c now db ≡ err stale_lease
unfolding fence_page holds_lease
fenced_by_page c now db row found old = rw found (ground arith)

commit_page-fenced :
    (codec : CursorCodec) (c : Claim) (result : PageResult) (now : ℕ) (db : Db)
    (m : Result CollectionError Db)
    → fence_page c now db ≡ err stale_lease
    → commit_page codec c result now db ≡ m
    → Traces.rolled_back db m ≡ db
commit_page-fenced codec c result now db (err e) old h = refl
commit_page-fenced codec c result now db (ok db') old h =
    let (_, row, _, _, _, _, fenced, _, _, _) = commit_page-eq-ok codec c result now db db' h in
    let no : err stale_lease ≡ ok row = sym old ∙ fenced in cc

renew_page-fenced :
    (c : Claim) (now : ℕ) (lease_ms : Num) (db : Db) (m : Result CollectionError (Bool × Db))
    → fence_page c now db ≡ err stale_lease
    → renew_page c now lease_ms db ≡ m
    → Traces.second db m ≡ db
unfolding renew_page renew_target
renew_page-fenced c now lease_ms db (err e) old h = refl
renew_page-fenced c now lease_ms db (ok (b, db')) old h =
    let (lease, _, h1) = bind-eq-ok (need (lease_duration lease_ms) invalid_state) _ h in
    go lease (read_target c.target.id db) h1
  where
    go :
        (lease : ℕ) (t : Option TargetRevision)
        → renew_target t c now lease db ≡ ok (b, db')
        → db' ≡ db
    go lease none h1 = ap (λ (x : Bool × Db). x.1) (sym (ok_injective h1))
    go lease (some target) h1 =
        let (_, _, h2) = bind-eq-ok (assert_collectable target) _ h1 in
        let (row, fenced, _) = bind-eq-ok (fence_page c now db) _ h2 in
        let no : err stale_lease ≡ ok row = sym old ∙ fenced in cc

fail_page-fenced :
    (c : Claim) (reason : Text) (retry_at : Option ℕ) (now : ℕ) (db : Db)
    → fence_page c now db ≡ err stale_lease
    → fail_page c reason retry_at now db ≡ err stale_lease
unfolding fail_page
fail_page-fenced c reason retry_at now db old = rw old refl

module _ (codec : CursorCodec) where
  -- Once a page is claimed again, the claim before it is dead. Between the two claims any calls may be
  -- made, and so after the second: from then on, at any time, the fence refuses the first claim, and a
  -- renewal, a commit or a failure that is called with it leaves the database as it is.
  pub superseded_claim_is_dead :
      (id page now : ℕ) (lease : Num) (db db1 : Db) (old : Claim) (page' now' : ℕ) (lease' : Num)
      (db3 : Db) (new : Claim) (between after : List Call) (t : ℕ)
      → claim_page codec id page now lease db ≡ ok (some old, db1)
      → claim_page codec id page' now' lease' (run_all codec between db1) ≡ ok (some new, db3)
      → (fence_page old t (run_all codec after db3) ≡ err stale_lease)
        × ((result : PageResult)
            → run codec (Traces.commit old result t) (run_all codec after db3)
              ≡ run_all codec after db3)
        × ((ms : Num)
            → run codec (Traces.renew old t ms) (run_all codec after db3) ≡ run_all codec after db3)
        × ((reason : Text) (retry_at : Option ℕ)
            → run codec (Traces.fail old reason retry_at t) (run_all codec after db3)
              ≡ run_all codec after db3)
  unfolding run
  superseded_claim_is_dead id page now lease db db1 old page' now' lease' db3 new between after t e
        f =
      let a = claim_page-Claimed codec id page now lease db old db1 e in
      let b = claim_page-Claimed codec id page' now' lease' (run_all codec between db1) new db3 f in
      let (q, found, steps) = run_all_refines codec between db1 id old.partition a.is in
      let same : q ≡ b.row =
        found_same id (run_all codec between db1).partitions q b.row found b.was in
      let (r, found', steps') = run_all_refines codec after db3 id new.partition b.is in
      let first : old.partition.lease_epoch ≤ q.lease_epoch = (Later-Reach steps).epoch in
      let last : new.partition.lease_epoch ≤ r.lease_epoch = (Later-Reach steps').epoch in
      let equal = ap (λ (p : Partition). p.lease_epoch) same in
      let raised = b.epoch in
      let end = run_all codec after db3 in
      let dead : fence_page old t end ≡ err stale_lease =
        fenced_by_epoch old t end r
          (subst (λ k. find_partition k end.partitions ≡ some r) (sym a.same_id) found')
          (omega arith) in
      (
        dead,
        λ result. commit_page-fenced codec old result t end _ dead refl,
        λ ms. renew_page-fenced old t ms end _ dead refl,
        λ reason retry_at.
            ap (Traces.rolled_back end) (fail_page-fenced old reason retry_at t end dead),
      )

  -- While a claim is live, nobody else is given the page: a claim of any page of that partition at that
  -- time returns no claim, or an error.
  pub live_claim_excludes :
      (c : Claim) (t page : ℕ) (lease : Num) (db : Db) (row : Partition) (other : Claim) (db' : Db)
      → fence_page c t db ≡ ok row
      → claim_page codec c.partition.id page t lease db ≢ ok (some other, db')
  unfolding holds_lease may_claim
  live_claim_excludes c t page lease db row other db' live e =
      let (found, held) = fence_page-eq-ok c t db row live in
      let claimed = claim_page-Claimed codec c.partition.id page t lease db other db' e in
      let same = found_same c.partition.id db.partitions row claimed.row found claimed.was in
      let free : may_claim row page t ≡ true =
        subst (λ p. may_claim p page t ≡ true) (sym same) claimed.free in
      ground arith

  pub commit_page-found :
      (c : Claim) (result : PageResult) (now : ℕ) (db db' : Db)
      → commit_page codec c result now db ≡ ok db'
      → (p : Partition) × (find_partition c.partition.id db'.partitions ≡ some p)
        × (c.partition.page_sequence < p.page_sequence)
  unfolding holds_lease
  commit_page-found c result now db db' e =
      let (row, fenced, same) = commit_page-partitions codec c result now db db' e in
      let (found, held) = fence_page-eq-ok c now db row fenced in
      let id = found_id c.partition.id db.partitions row found in
      (
        advanced result now row,
        subst (λ ps. find_partition c.partition.id ps ≡ some (advanced result now row)) same
            (find-update_where (λ (p : Partition). p.id == c.partition.id)
                (λ p. p.id == c.partition.id) (advanced result now) db.partitions (λ p. refl)
              ∙ (ap
                    (Option.map (λ (p : Partition).
                      if p.id == c.partition.id then advanced result now p else p))
                    found
                  ∙ ap some (hit row id))),
        ground arith,
      )
    where
      hit :
          (row : Partition)
          → row.id ≡ c.partition.id
          → (if row.id == c.partition.id then advanced result now row else row)
            ≡ advanced result now row
      hit row id = ground arith

  -- A claim commits its page at most once: after a commit, whatever calls follow, at any time, the
  -- fence refuses the claim, and a second commit with it leaves the database as it is.
  pub commits_once :
      (c : Claim) (result : PageResult) (now : ℕ) (db db' : Db) (after : List Call) (t : ℕ)
      → commit_page codec c result now db ≡ ok db'
      → (fence_page c t (run_all codec after db') ≡ err stale_lease)
        × ((again : PageResult)
            → run codec (Traces.commit c again t) (run_all codec after db')
              ≡ run_all codec after db')
  unfolding run
  commits_once c result now db db' after t e =
      let (p, found, ahead) = commit_page-found c result now db db' e in
      let (r, found', steps) = run_all_refines codec after db' c.partition.id p found in
      let later : p.page_sequence ≤ r.page_sequence = (Later-Reach steps).page in
      let end = run_all codec after db' in
      let dead : fence_page c t end ≡ err stale_lease =
        fenced_by_page c t end r found' (omega arith) in
      (dead, λ again. commit_page-fenced codec c again t end _ dead refl)
