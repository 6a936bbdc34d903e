-- ===== src/Worker/Reports.antt =====
-- What a report of executePartitionPage of apps/worker/src/ingestion.ts tells of the tables.
use mathlib.Core.Path.{subst}
use tech_p.Base.{
  ℕ, ◌≤◌, ◌≡◌, ◌≢◌, refl, sym, ◌∙◌, ap, Bool, true, false, Option, none, some, List, arith,
  Bool-cases, inl, inr, Num, Text, codes, Result, ok, err,
}
use tech_p.Collection.Model.{CollectionError, PageDisposition, PageResult, Partition, Claim}
use tech_p.Collection.Page.{CursorCodec}
use tech_p.Collection.Store.{Db, find_partition}
use tech_p.Collection.Store.Renewing.{fail_page}
use tech_p.Collection.Store.Leasing.{claim_page, may_claim}
use tech_p.Collection.Store.Commit.{commit_page}
use tech_p.Collection.Lifecycle.{Later-Reach}
use tech_p.Collection.Refines.{found_same}
use tech_p.Collection.Traces.{Call, run_all, run_all_refines}
use tech_p.Collection.Claiming.{claim_page-Claimed}
use tech_p.Collection.Fencing.{commit_page-found}
use tech_p.Worker.Outcomes.{
  Collected, PageRun, Disposition, PageReport, after_fail, retry_after, message_of, is_stale,
  is_blocked, skipped_report,
}
use tech_p.Worker.Page.{
  Reply, give_up, on_error, after_commit, pass_time, after_collect, with_claim, after_claim,
  execute_page, returns,
}

-- The page was collected, so that its partition goes on or ends: continue, complete or partial.
abbrev pub is_collected : Disposition → Bool
is_collected Disposition.skipped = false
is_collected Disposition.fenced_out = false
is_collected (Disposition.disposed PageDisposition.deferred) = false
is_collected (Disposition.disposed _) = true

abbrev pub is_put_off : Disposition → Bool
is_put_off (Disposition.disposed PageDisposition.deferred) = true
is_put_off _ = false

abbrev pub report_or : PageReport → Result CollectionError PageReport → PageReport
report_or r (err e) = r
report_or r (ok report) = report

abbrev is_ok : Result CollectionError PageReport → Bool
is_ok (ok report) = true
is_ok (err e) = false

not_collected_after_fail :
    (message : Text) (retry_at : Option ℕ) (db : Db) (m : Result CollectionError Db)
    → is_collected (after_fail message retry_at db m).0.disposition ≡ false
not_collected_after_fail message retry_at db (ok db') = refl
not_collected_after_fail message retry_at db (err e) = elim (Bool-cases (is_stale e)) [
  | inl stale ↦ rw stale refl
  | inr other ↦ rw other refl
]

module _ (codec : CursorCodec) where
  -- A commit of the claim went through, and the tables are as it left them.
  record Committed (claim : Claim) (end : Db) : Type 0 where
    pub result : PageResult
    pub now : ℕ
    pub before : Db
    pub commits : commit_page codec claim result now before ≡ ok end

  on_error-not_collected :
      (r : PageRun) (claim : Claim) (is_error lost : Bool) (message : Text) (db : Db)
      → is_collected (on_error r claim is_error lost message db).0.disposition ≡ false
  unfolding on_error give_up
  on_error-not_collected r claim is_error lost message db =
      let retry_at = retry_after is_error lost message r.error_time in
      not_collected_after_fail message retry_at db
        (fail_page claim message retry_at r.error_time db)

  after_commit-Committed :
      (r : PageRun) (claim : Claim) (lost : Bool) (result : PageResult) (db : Db)
      (m : Result CollectionError Db)
      → commit_page codec claim result r.commit_time db ≡ m
      → is_collected (after_commit r claim lost result db m).0.disposition ≡ true
      → Committed claim (after_commit r claim lost result db m).1
  unfolding after_commit
  after_commit-Committed r claim lost result db (ok db') e h = record {
    result = result;
    now = r.commit_time;
    before = db;
    commits = e;
  }
  after_commit-Committed r claim lost result db (err e) f h =
      let clash = go (is_stale e) (is_blocked e) refl refl in cc
    where
      go : (s b : Bool) → is_stale e ≡ s → is_blocked e ≡ b → false ≡ true
      go true b stale f2 = rw stale at h
      go false true other blocked = rw (other, blocked) at h
      go false false other thrown =
          sym (on_error-not_collected r claim true lost (message_of r.violation_message e) db)
          ∙ (rw (other, thrown) at h)

  after_collect-Committed :
      (r : PageRun) (claim : Claim) (lost : Bool) (c : Collected) (db : Db)
      → is_collected (after_collect codec r claim lost c db).0.disposition ≡ true
      → Committed claim (after_collect codec r claim lost c db).1
  unfolding after_collect give_up
  after_collect-Committed r claim lost Collected.no_collector db h =
      let clash =
        not_collected_after_fail r.missing_message none db
          (fail_page claim r.missing_message none r.error_time db) in
      cc
  after_collect-Committed r claim lost (Collected.returned result) db h =
      after_commit-Committed r claim lost result db
        (commit_page codec claim result r.commit_time db) refl h
  after_collect-Committed r claim lost (Collected.threw is_error message) db h =
      let clash = on_error-not_collected r claim is_error lost message db in cc

  -- A report of a kind that is not skipped comes of a claim that was given.
  skipped_clash :
      (summary : Option Text) (db db' : Db) (report : PageReport) (kind : Disposition → Bool)
      → kind Disposition.skipped ≡ false
      → returns codec (skipped_report summary, db) ≡ (ok report, db')
      → kind report.disposition ≡ true
      → false ≡ true
  skipped_clash summary db db' report kind skips h k =
      sym skips ∙ (ap (λ (x : Reply codec). kind (report_or report x.0).disposition) h ∙ k)

  pub after_claim-given :
      (r : PageRun) (db end : Db) (report : PageReport) (kind : Disposition → Bool)
      (m : Result CollectionError (Option Claim × Db))
      → kind Disposition.skipped ≡ false
      → after_claim codec r db m ≡ (ok report, end)
      → kind report.disposition ≡ true
      → (claim : Claim) × (db1 : Db) × (m ≡ ok (some claim, db1))
        × (with_claim codec r claim db1 ≡ (report, end))
  unfolding after_claim
  after_claim-given r db end report kind (err e) skips h k = elim (Bool-cases (is_blocked e)) [
    | inl blocked ↦
        let clash =
          skipped_clash (some (codes "Target policy blocked or disabled")) db end report kind skips
            (rw blocked at h) k in
        absurd cc
    | inr thrown ↦
        let clash : false ≡ true = ap (λ (x : Reply codec). is_ok x.0) (rw thrown at h) in absurd cc
  ]
  after_claim-given r db end report kind (ok (none, db1)) skips h k =
      let clash = skipped_clash none db1 end report kind skips h k in absurd cc
  after_claim-given r db end report kind (ok (some claim, db1)) skips h k =
      (claim, db1, refl, ap (λ (x : Reply codec). (report_or report x.0, x.1)) h)

  -- A page that is reported as collected is not given out again: its partition is at a later page, and
  -- whatever calls follow, at no time and under no lease does claimPage grant a claim of that page.
  pub collected_page_is_done :
      (r : PageRun) (db end : Db) (report : PageReport) (after : List Call) (t : ℕ) (lease : Num)
      (again : Claim) (db2 : Db)
      → execute_page codec r db ≡ (ok report, end)
      → is_collected report.disposition ≡ true
      → claim_page codec r.partition_id r.page_sequence t lease (run_all codec after end)
        ≢ ok (some again, db2)
  unfolding execute_page with_claim may_claim
  collected_page_is_done r db end report after t lease again db2 e h f =
      let (claim, db1, given, same) =
        after_claim-given r db end report is_collected
          (claim_page codec r.partition_id r.page_sequence r.start_time r.lease_ms db) refl e h in
      let (lost, mid) = pass_time codec claim r.lease_ms r.meanwhile false db1 in
      let first =
        claim_page-Claimed codec r.partition_id r.page_sequence r.start_time r.lease_ms db claim db1
          given in
      let done =
        after_collect-Committed r claim lost r.collected mid
          (ap (λ (x : PageReport × Db). is_collected x.0.disposition) same ∙ h) in
      let commits : commit_page codec claim done.result done.now done.before ≡ ok end =
        done.commits ∙ ap (λ (x : PageReport × Db). ok x.1) same in
      let (p, found, ahead) =
        commit_page-found codec claim done.result done.now done.before end commits in
      let (q, found', steps) = run_all_refines codec after end claim.partition.id p found in
      let second =
        claim_page-Claimed codec r.partition_id r.page_sequence t lease (run_all codec after end)
          again db2 f in
      let there : q ≡ second.row =
        found_same r.partition_id (run_all codec after end).partitions q second.row
          (subst (λ k. find_partition k (run_all codec after end).partitions ≡ some q) first.same_id
            found')
          second.was in
      let later : p.page_sequence ≤ q.page_sequence = (Later-Reach steps).page in
      let page = ap (λ (x : Partition). x.page_sequence) there in
      let mine = first.same_page in let was = first.free in let is = second.free in ground arith
