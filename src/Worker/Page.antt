-- ===== src/Worker/Page.antt =====
-- executePartitionPage of apps/worker/src/ingestion.ts over the transactions of the collection state. What a
-- collector answers, and what happens to the tables while it works, are arguments.
use tech_p.Base.{
  ℕ, Bool, true, false, ◌||◌, Option, none, some, List, [], ◌∷◌, if◌then◌else◌, Date, Num, Text,
  codes, Result, ok, err,
}
use tech_p.Collection.Model.{CollectionError, PageDisposition, PageResult, Claim}
use tech_p.Collection.Page.{CursorCodec}
use tech_p.Collection.Store.{Db}
use tech_p.Collection.Store.Renewing.{renew_page, fail_page}
use tech_p.Collection.Store.Leasing.{claim_page}
use tech_p.Collection.Store.Commit.{commit_page}
use tech_p.Collection.Traces
use tech_p.Collection.Traces.{Call}
use tech_p.Worker.Outcomes.{
  Collected, Meanwhile, PageRun, Disposition, PageReport, skipped_report, fenced_report,
  deferred_report, collected_report, message_of, retry_after, after_renewal, is_stale, is_blocked,
  after_fail,
}

unfoldable pub give_up : PageRun → Claim → Text → Option ℕ → Db → PageReport × Db
give_up r claim message retry_at db =
    after_fail message retry_at db (fail_page claim message retry_at r.error_time db)

-- The outer catch.
unfoldable pub on_error : PageRun → Claim → Bool → Bool → Text → Db → PageReport × Db
unfolding give_up retry_after
on_error r claim is_error renewal_failed message db =
    give_up r claim message (retry_after is_error renewal_failed message r.error_time) db

unfoldable pub after_commit :
    PageRun → Claim → Bool → PageResult → Db → Result CollectionError Db → PageReport × Db
unfolding on_error
after_commit r claim renewal_failed result db (ok db') = (collected_report result, db')
after_commit r claim renewal_failed result db (err e) =
    if is_stale e
    then (fenced_report, db)
    else (if is_blocked e
        then (deferred_report (codes "policy_blocked") none, db)
        else on_error r claim true renewal_failed (message_of r.violation_message e) db)

-- What the job handler calls back about a report: onStaleLease, onPermanentFailure, or neither.
pub data Notice : Type 0 where
  no_notice stale_notice : Notice
  permanent_notice : Text → Notice

-- `!result.nextDueAt`, and a summary that is not empty.
abbrev pub permanent_of : Option Date → Option Text → Notice
permanent_of (some due) summary = no_notice
permanent_of none none = no_notice
permanent_of none (some []) = no_notice
permanent_of none (some (c ∷ s)) = permanent_notice (c ∷ s)

unfoldable pub notice_of : PageReport → Notice
notice_of report = by_disposition report.disposition
  where
    by_disposition : Disposition → Notice
    by_disposition Disposition.skipped = no_notice
    by_disposition Disposition.fenced_out = stale_notice
    by_disposition (Disposition.disposed PageDisposition.deferred) =
        permanent_of report.next_due_at report.error_summary
    by_disposition (Disposition.disposed _) = no_notice

module _ (codec : CursorCodec) where
  -- Whether a renewal has failed, and the tables when the collector is done.
  unfoldable pub pass_time : Claim → Num → List Meanwhile → Bool → Db → Bool × Db
  pass_time claim lease_ms [] failed db = (failed, db)
  pass_time claim lease_ms (Meanwhile.others c ∷ ms) failed db =
      pass_time claim lease_ms ms failed (Traces.run codec c db)
  pass_time claim lease_ms (Meanwhile.renews now ∷ ms) failed db =
      let (lost, db') = after_renewal db (renew_page claim now lease_ms db) in
      pass_time claim lease_ms ms (failed || lost) db'

  unfoldable pub after_collect : PageRun → Claim → Bool → Collected → Db → PageReport × Db
  unfolding give_up on_error after_commit
  after_collect r claim renewal_failed Collected.no_collector db =
      give_up r claim r.missing_message none db
  after_collect r claim renewal_failed (Collected.returned result) db =
      after_commit r claim renewal_failed result db
        (commit_page codec claim result r.commit_time db)
  after_collect r claim renewal_failed (Collected.threw is_error message) db =
      on_error r claim is_error renewal_failed message db

  unfoldable pub with_claim : PageRun → Claim → Db → PageReport × Db
  unfolding pass_time after_collect
  with_claim r claim db =
      let (renewal_failed, db') = pass_time claim r.lease_ms r.meanwhile false db in
      after_collect r claim renewal_failed r.collected db'

  abbrev pub Reply : Type 0
  Reply = Result CollectionError PageReport × Db

  abbrev pub returns : PageReport × Db → Reply
  returns (report, db) = (ok report, db)

  unfoldable pub after_claim : PageRun → Db → Result CollectionError (Option Claim × Db) → Reply
  unfolding with_claim
  after_claim r db (err e) = (
    if is_blocked e
        then ok (skipped_report (some (codes "Target policy blocked or disabled")))
        else err e,
    db,
  )
  after_claim r db (ok (none, db')) = (ok (skipped_report none), db')
  after_claim r db (ok (some claim, db')) = returns (with_claim r claim db')

  unfoldable pub execute_page : PageRun → Db → Reply
  unfolding after_claim
  execute_page r db =
      after_claim r db (claim_page codec r.partition_id r.page_sequence r.start_time r.lease_ms db)
