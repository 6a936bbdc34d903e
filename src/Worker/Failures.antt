-- ===== src/Worker/Failures.antt =====
-- What the failure of a page in executePartitionPage of apps/worker/src/ingestion.ts leaves in the tables.
use mathlib.Core.Path.{subst}
use mathlib.Core.Option
use tech_p.Base.{
  ℕ, ◌+◌, ◌≡◌, refl, sym, ◌∙◌, ap, Bool, true, false, Option, none, some, arith, Bool-cases, ◌⊎◌,
  inl, inr, ◌&&◌, if◌then◌else◌, ◌==◌, find-update_where, at, Text, Result, ok, err, bind-eq-ok,
  ok_injective, ◌>>=◌,
}
use tech_p.Collection.Model.{CollectionError, Partition, PartitionState, Claim}
use tech_p.Collection.Page.{CursorCodec}
use tech_p.Collection.Store.{Db, find_partition, fence_page, holds_lease}
use tech_p.Collection.Store.Renewing.{fail_page, failed_page, slice}
use tech_p.Collection.Store.Leasing.{claim_page}
use tech_p.Collection.Refines.{fence_page-eq-ok, found_id}
use tech_p.Collection.Claiming.{claim_page-Claimed}
use tech_p.Worker.Outcomes.{
  Collected, PageRun, PageReport, is_policy_violation, after_fail, retry_after, is_stale,
  deferred_report,
}
use tech_p.Worker.Page.{give_up, on_error, pass_time, after_collect, with_claim, execute_page}
use tech_p.Worker.Reports.{is_put_off, after_claim-given}

-- The fence refuses a claim with one error only.
abbrev pub stale_or_ok : {A : Type 0} → Result CollectionError A → Bool
stale_or_ok (ok a) = true
stale_or_ok (err e) = is_stale e

fence_page-err :
    (c : Claim) (now : ℕ) (db : Db) (o : Option Partition)
    → find_partition c.partition.id db.partitions ≡ o
    → stale_or_ok (fence_page c now db) ≡ true
unfolding fence_page
fence_page-err c now db none found = rw found refl
fence_page-err c now db (some row) found = elim (Bool-cases (holds_lease row c now)) [
  | inl holds ↦ rw (found, holds) refl
  | inr lost ↦ rw (found, lost) refl
]

bind_stale :
    (m : Result CollectionError Partition) (rest : Partition → Db)
    → stale_or_ok m ≡ true
    → stale_or_ok (m >>= λ row. ok (rest row)) ≡ true
bind_stale (ok row) rest h = refl
bind_stale (err e) rest h = h

pub fail_page-err :
    (c : Claim) (reason : Text) (retry_at : Option ℕ) (now : ℕ) (db : Db)
    → stale_or_ok (fail_page c reason retry_at now db) ≡ true
unfolding fail_page
fail_page-err c reason retry_at now db =
    bind_stale (fence_page c now db) _ (fence_page-err c now db _ refl)

fail_page-found :
    (c : Claim) (reason : Text) (retry_at : Option ℕ) (now : ℕ) (db db' : Db)
    → fail_page c reason retry_at now db ≡ ok db'
    → (row : Partition) × (find_partition c.partition.id db'.partitions
        ≡ some (failed_page reason retry_at now row))
unfolding fail_page
fail_page-found c reason retry_at now db db' e =
    let (row, fenced, e1) = bind-eq-ok (fence_page c now db) _ e in
    let (found, _) = fence_page-eq-ok c now db row fenced in
    let id : row.id ≡ c.partition.id = found_id c.partition.id db.partitions row found in
    let g = failed_page reason retry_at now in
    (
      row,
      ap (λ (d : Db). find_partition c.partition.id d.partitions) (sym (ok_injective e1))
          ∙ (find-update_where (λ (p : Partition). p.id == c.partition.id) (λ p. p.id == row.id) g
                db.partitions (λ p. refl)
              ∙ (ap (Option.map (λ (p : Partition). if p.id == row.id then g p else p)) found
                  ∙ ap some (hit row))),
    )
  where
    hit :
        (row : Partition)
        → (if row.id == row.id then failed_page reason retry_at now row else row)
          ≡ failed_page reason retry_at now row
    hit row = ground arith

retry_after-cases :
    (is_error lost : Bool) (message : Text) (now : ℕ)
    → (((is_error && is_policy_violation message) ≡ false)
        × (retry_after is_error lost message now ≡ some (now + 5000)))
      ⊎ (retry_after is_error lost message now ≡ none)
unfolding retry_after
retry_after-cases is_error true message now = inr (ground arith)
retry_after-cases is_error false message now =
    elim (Bool-cases (is_error && is_policy_violation message)) [
      | inl violates ↦ inr (rw violates refl)
      | inr passes ↦ inl (passes, rw passes refl)
    ]

-- The row of a partition after its page failed, and what is reported of it.
abbrev pub FailedRow : PageRun → Bool → Text → PageReport → Partition → Type 0
FailedRow r is_error message report row =
    (row.lease_until ≡ none)
    × (row.reason ≡ some (slice 128 message))
    × ((((is_error && is_policy_violation message) ≡ false)
          × (row.state ≡ PartitionState.deferred)
          × (row.next_due_at ≡ r.error_time + 5000)
          × (report.next_due_at ≡ some (at (r.error_time + 5000))))
        ⊎ ((row.state ≡ PartitionState.failed) × (report.next_due_at ≡ none)))

failed_page-FailedRow :
    (r : PageRun) (is_error : Bool) (message : Text) (lost : Bool) (row : Partition)
    → FailedRow r is_error message
        (deferred_report message (retry_after is_error lost message r.error_time))
        (failed_page message (retry_after is_error lost message r.error_time) r.error_time row)
failed_page-FailedRow r is_error message lost row =
    elim (retry_after-cases is_error lost message r.error_time) [
      | inl (passes, soon) ↦ rw soon (refl, refl, inl (passes, refl, refl, refl))
      | inr never ↦ rw never (refl, refl, inr (refl, refl))
    ]

module _ (codec : CursorCodec) where
  -- A page whose collection throws, and which is reported as deferred, has failed in the tables as well: its
  -- row has no lease and the start of the message as its reason, and either it is deferred and due five
  -- seconds after the error, as is reported, unless what is thrown is an Error whose message tells of a policy
  -- violation, or it is failed and no time is reported.
  pub failure_is_recorded :
      (r : PageRun) (db end : Db) (report : PageReport) (is_error : Bool) (message : Text)
      → r.collected ≡ Collected.threw is_error message
      → execute_page codec r db ≡ (ok report, end)
      → is_put_off report.disposition ≡ true
      → (row : Partition) × (find_partition r.partition_id end.partitions ≡ some row)
        × FailedRow r is_error message report row
  unfolding execute_page with_claim after_collect on_error give_up
  failure_is_recorded r db end report is_error message threw e h =
      let (claim, db1, given, same) =
        after_claim-given codec r db end report is_put_off
          (claim_page codec r.partition_id r.page_sequence r.start_time r.lease_ms db) refl e h in
      let first =
        claim_page-Claimed codec r.partition_id r.page_sequence r.start_time r.lease_ms db claim db1
          given in
      let (lost, mid) = pass_time codec claim r.lease_ms r.meanwhile false db1 in
      let retry_at = retry_after is_error lost message r.error_time in
      let (row, found, told) =
        go claim lost mid (fail_page claim message retry_at r.error_time mid) refl
          (rw threw at same) in
      (row, subst (λ k. find_partition k end.partitions ≡ some row) first.same_id found, told)
    where
      go :
          (claim : Claim) (lost : Bool) (mid : Db) (m : Result CollectionError Db)
          → fail_page claim message
              (retry_after is_error lost message r.error_time)
              r.error_time
              mid
            ≡ m
          → after_fail message (retry_after is_error lost message r.error_time) mid m
            ≡ (report, end)
          → (row : Partition) × (find_partition claim.partition.id end.partitions ≡ some row)
            × FailedRow r is_error message report row
      go claim lost mid (ok db') f same =
          let retry_at = retry_after is_error lost message r.error_time in
          let (row, found) = fail_page-found claim message retry_at r.error_time mid db' f in
          (
            failed_page message retry_at r.error_time row,
            ap (λ (x : PageReport × Db). find_partition claim.partition.id x.1.partitions)
                  (sym same)
                ∙ found,
            subst
                (λ (x : PageReport).
                  FailedRow r is_error message x (failed_page message retry_at r.error_time row))
                (ap (λ (x : PageReport × Db). x.0) same)
                (failed_page-FailedRow r is_error message lost row),
          )
      go claim lost mid (err other) f same =
          let stale =
            fail_page-err claim message (retry_after is_error lost message r.error_time)
              r.error_time mid in
          let is : is_stale other ≡ true = ap stale_or_ok (sym f) ∙ stale in
          let clash : false ≡ true =
            ap (λ (x : PageReport × Db). is_put_off x.0.disposition) (rw is at same) ∙ h in
          absurd cc
