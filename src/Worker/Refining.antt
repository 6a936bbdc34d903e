-- ===== src/Worker/Refining.antt =====
-- executePartitionPage of apps/worker/src/ingestion.ts as a sequence of transactions of the collection state.
use mathlib.Core.Path.{subst}
use tech_p.Base.{
  ℕ, ◌≡◌, refl, sym, ◌∙◌, ap, Bool, true, false, ◌||◌, Option, none, some, List, [], ◌∷◌, ◌++◌, map,
  Bool-cases, inl, inr, Num, Text, codes, Result, ok, err, ok_injective,
}
use tech_p.Collection.Model.{CollectionError, PageResult, Claim}
use tech_p.Collection.Page.{CursorCodec}
use tech_p.Collection.Store.{Db}
use tech_p.Collection.Store.Renewing.{renew_page, fail_page}
use tech_p.Collection.Store.Leasing.{claim_page}
use tech_p.Collection.Store.Commit.{commit_page}
use tech_p.Collection.Traces
use tech_p.Collection.Traces.{Call, run, run_all, rolled_back, second}
use tech_p.Worker.Outcomes.{
  Collected, Meanwhile, PageRun, PageReport, fenced_report, deferred_report, collected_report,
  after_renewal, after_fail, retry_after, message_of, is_stale, is_blocked,
}
use tech_p.Worker.Page.{
  give_up, on_error, after_commit, pass_time, after_collect, with_claim, after_claim, execute_page,
}
use tech_p.Worker.Failures.{stale_or_ok, fail_page-err}

abbrev pub made : Claim → Num → Meanwhile → Call
made claim lease_ms (Meanwhile.others c) = c
made claim lease_ms (Meanwhile.renews now) = Traces.renew claim now lease_ms

after_renewal-second :
    (db : Db) (m : Result CollectionError (Bool × Db)) → (after_renewal db m).1 ≡ second db m
after_renewal-second db (ok (b, db')) = refl
after_renewal-second db (err e) = refl

module _ (codec : CursorCodec) where
  run_all-append :
      (cs ds : List Call) (db : Db)
      → run_all codec (cs ++ ds) db ≡ run_all codec ds (run_all codec cs db)
  unfolding run_all
  run_all-append [] ds db = refl
  run_all-append (c ∷ cs) ds db = run_all-append cs ds (run codec c db)

  pub pass_time-run_all :
      (claim : Claim) (lease_ms : Num) (ms : List Meanwhile) (failed : Bool) (db : Db)
      → (pass_time codec claim lease_ms ms failed db).1
        ≡ run_all codec (map (made claim lease_ms) ms) db
  unfolding pass_time run_all run
  pass_time-run_all claim lease_ms [] failed db = refl
  pass_time-run_all claim lease_ms (Meanwhile.others c ∷ ms) failed db =
      pass_time-run_all claim lease_ms ms failed (run codec c db)
  pass_time-run_all claim lease_ms (Meanwhile.renews now ∷ ms) failed db =
      let renewal = renew_page claim now lease_ms db in
      pass_time-run_all claim lease_ms ms (failed || (after_renewal db renewal).0)
        (after_renewal db renewal).1
      ∙ ap (run_all codec (map (made claim lease_ms) ms)) (after_renewal-second db renewal)

  -- Why a page is failed, with its message and the time of the next try. `lost` says that a renewal failed.
  pub data Cause (r : PageRun) (claim : Claim) (lost : Bool) (db : Db) (message : Text)
      (retry_at : Option ℕ) : Type 0 where
    unserved :
        r.collected ≡ Collected.no_collector
        → message ≡ r.missing_message
        → retry_at ≡ none
        → Cause r claim lost db message retry_at
    thrown :
        (is_error : Bool)
        → r.collected ≡ Collected.threw is_error message
        → retry_at ≡ retry_after is_error lost message r.error_time
        → Cause r claim lost db message retry_at
    uncommitted :
        (result : PageResult) (e : CollectionError)
        → r.collected ≡ Collected.returned result
        → commit_page codec claim result r.commit_time db ≡ err e
        → is_stale e ≡ false
        → is_blocked e ≡ false
        → message ≡ message_of r.violation_message e
        → retry_at ≡ retry_after true lost message r.error_time
        → Cause r claim lost db message retry_at

  -- The transaction that ends the work on a page, and what is reported.
  pub data Last (r : PageRun) (claim : Claim) (lost : Bool) (db : Db) (report : PageReport)
      (last : List Call) : Type 0 where
    commits :
        (result : PageResult) (db' : Db)
        → r.collected ≡ Collected.returned result
        → commit_page codec claim result r.commit_time db ≡ ok db'
        → report ≡ collected_report result
        → last ≡ Traces.commit claim result r.commit_time ∷ []
        → Last r claim lost db report last
    fenced :
        (result : PageResult) (e : CollectionError)
        → r.collected ≡ Collected.returned result
        → commit_page codec claim result r.commit_time db ≡ err e
        → is_stale e ≡ true
        → report ≡ fenced_report
        → last ≡ []
        → Last r claim lost db report last
    blocked :
        (result : PageResult) (e : CollectionError)
        → r.collected ≡ Collected.returned result
        → commit_page codec claim result r.commit_time db ≡ err e
        → is_blocked e ≡ true
        → report ≡ deferred_report (codes "policy_blocked") none
        → last ≡ []
        → Last r claim lost db report last
    fails :
        (message : Text) (retry_at : Option ℕ) (db' : Db)
        → Cause r claim lost db message retry_at
        → fail_page claim message retry_at r.error_time db ≡ ok db'
        → report ≡ deferred_report message retry_at
        → last ≡ Traces.fail claim message retry_at r.error_time ∷ []
        → Last r claim lost db report last
    cannot_fail :
        (message : Text) (retry_at : Option ℕ) (e : CollectionError)
        → Cause r claim lost db message retry_at
        → fail_page claim message retry_at r.error_time db ≡ err e
        → is_stale e ≡ true
        → report ≡ fenced_report
        → last ≡ []
        → Last r claim lost db report last

  abbrev Ended : PageRun → Claim → Bool → Db → PageReport × Db → Type 0
  Ended r claim lost db end =
      (last : List Call) × (end.1 ≡ run_all codec last db) × Last r claim lost db end.0 last

  after_fail-Ended :
      (r : PageRun) (claim : Claim) (lost : Bool) (message : Text) (retry_at : Option ℕ) (db : Db)
      (m : Result CollectionError Db)
      → Cause r claim lost db message retry_at
      → fail_page claim message retry_at r.error_time db ≡ m
      → Ended r claim lost db (after_fail message retry_at db m)
  unfolding run_all run
  after_fail-Ended r claim lost message retry_at db (ok db') why e = (
    Traces.fail claim message retry_at r.error_time ∷ [],
    sym (ap (rolled_back db) e),
    Last.fails message retry_at db' why e refl refl,
  )
  after_fail-Ended r claim lost message retry_at db (err x) why e =
      let stale : is_stale x ≡ true =
        ap stale_or_ok (sym e) ∙ fail_page-err claim message retry_at r.error_time db in
      rw stale ([], refl, Last.cannot_fail message retry_at x why e stale refl refl)

  give_up-Ended :
      (r : PageRun) (claim : Claim) (lost : Bool) (message : Text) (retry_at : Option ℕ) (db : Db)
      → Cause r claim lost db message retry_at
      → Ended r claim lost db (give_up r claim message retry_at db)
  unfolding give_up
  give_up-Ended r claim lost message retry_at db why =
      after_fail-Ended r claim lost message retry_at db
        (fail_page claim message retry_at r.error_time db) why refl

  after_commit-Ended :
      (r : PageRun) (claim : Claim) (lost : Bool) (result : PageResult) (db : Db)
      (m : Result CollectionError Db)
      → r.collected ≡ Collected.returned result
      → commit_page codec claim result r.commit_time db ≡ m
      → Ended r claim lost db (after_commit r claim lost result db m)
  unfolding after_commit run_all run on_error
  after_commit-Ended r claim lost result db (ok db') given e = (
    Traces.commit claim result r.commit_time ∷ [],
    sym (ap (rolled_back db) e),
    Last.commits result db' given e refl refl,
  )
  after_commit-Ended r claim lost result db (err x) given e = elim (Bool-cases (is_stale x)) [
    | inl stale ↦ rw stale ([], refl, Last.fenced result x given e stale refl refl)
    | inr other ↦ elim (Bool-cases (is_blocked x)) [
      | inl block ↦ rw (other, block) ([], refl, Last.blocked result x given e block refl refl)
      | inr raised ↦
          let message = message_of r.violation_message x in
          let retry_at = retry_after true lost message r.error_time in
          rw (other, raised)
            (give_up-Ended r claim lost message retry_at db
              (Cause.uncommitted result x given e other raised refl refl))
    ]
  ]

  after_collect-Ended :
      (r : PageRun) (claim : Claim) (lost : Bool) (c : Collected) (db : Db)
      → r.collected ≡ c
      → Ended r claim lost db (after_collect codec r claim lost c db)
  unfolding after_collect on_error
  after_collect-Ended r claim lost Collected.no_collector db given =
      give_up-Ended r claim lost r.missing_message none db (Cause.unserved given refl refl)
  after_collect-Ended r claim lost (Collected.returned result) db given =
      after_commit-Ended r claim lost result db (commit_page codec claim result r.commit_time db)
        given refl
  after_collect-Ended r claim lost (Collected.threw is_error message) db given =
      give_up-Ended r claim lost message (retry_after is_error lost message r.error_time) db
        (Cause.thrown is_error given refl)

  -- The calls while the collector works.
  abbrev pub between : PageRun → Claim → List Call
  between r claim = map (made claim r.lease_ms) r.meanwhile

  abbrev pub lost_renewal : PageRun → Claim → Db → Bool
  lost_renewal r claim db = (pass_time codec claim r.lease_ms r.meanwhile false db).0

  abbrev Worked : PageRun → Claim → Db → PageReport → Db → Type 0
  Worked r claim db report end =
      (last : List Call) × (end ≡ run_all codec (between r claim ++ last) db)
      × Last r claim (lost_renewal r claim db) (run_all codec (between r claim) db) report last

  with_claim-Worked :
      (r : PageRun) (claim : Claim) (db : Db)
      → Worked r claim db (with_claim codec r claim db).0 (with_claim codec r claim db).1
  unfolding with_claim
  with_claim-Worked r claim db =
      let (lost, mid) = pass_time codec claim r.lease_ms r.meanwhile false db in
      let there = pass_time-run_all claim r.lease_ms r.meanwhile false db in
      let (last, same, ends) = after_collect-Ended r claim lost r.collected mid refl in
      (
        last,
        same ∙ (ap (run_all codec last) there ∙ sym (run_all-append (between r claim) last db)),
        subst
            (λ (d : Db).
              Last r claim lost d (after_collect codec r claim lost r.collected mid).0 last)
            there ends,
      )

  abbrev claim_call : PageRun → Call
  claim_call r = Traces.claim r.partition_id r.page_sequence r.start_time r.lease_ms

  after_claim-calls :
      (r : PageRun) (db : Db) (m : Result CollectionError (Option Claim × Db))
      → (cs : List Call) × ((after_claim codec r db m).1 ≡ run_all codec cs (second db m))
  unfolding after_claim run_all
  after_claim-calls r db (err e) = ([], refl)
  after_claim-calls r db (ok (none, db')) = ([], refl)
  after_claim-calls r db (ok (some claim, db')) =
      let (last, same, _) = with_claim-Worked r claim db' in (between r claim ++ last, same)

  -- Working on a page is one claim of it, and then a sequence of transactions.
  pub execute_page-calls :
      (r : PageRun) (db : Db)
      → (cs : List Call) × ((execute_page codec r db).1 ≡ run_all codec (claim_call r ∷ cs) db)
  unfolding execute_page run_all run
  execute_page-calls r db =
      after_claim-calls r db
        (claim_page codec r.partition_id r.page_sequence r.start_time r.lease_ms db)

  -- Working on a page whose claim is given is a sequence of transactions of the collection state: the claim,
  -- those that come in while the collector works, the renewals of the claim among them, and the last one, if
  -- any. The report tells which that is. A page that is collected is committed as it was returned. If the commit
  -- finds the lease lost, or the target blocked, there is none, and the report says so. Where there is no
  -- collector, where it throws, and where the commit has another error, the page is failed with the message
  -- and the time of the next try that are reported, or, if the lease is lost, there is none and it is
  -- reported as fenced out.
  pub execute_page_refines :
      (r : PageRun) (db db1 end : Db) (claim : Claim) (report : PageReport)
      → claim_page codec r.partition_id r.page_sequence r.start_time r.lease_ms db
        ≡ ok (some claim, db1)
      → execute_page codec r db ≡ (ok report, end)
      → (last : List Call) × (end
          ≡ run_all codec
              (Traces.claim r.partition_id r.page_sequence r.start_time r.lease_ms
                ∷ (map (made claim r.lease_ms) r.meanwhile ++ last))
              db)
        × Last r claim
            (lost_renewal r claim db1)
            (run_all codec (map (made claim r.lease_ms) r.meanwhile) db1)
            report
            last
  unfolding execute_page after_claim run_all run
  execute_page_refines r db db1 end claim report given e =
      let (last, same, ends) = with_claim-Worked r claim db1 in
      let told = rw given at e in
      let reports : (with_claim codec r claim db1).0 ≡ report =
        ok_injective (ap (λ (x : Result CollectionError PageReport × Db). x.0) told) in
      let leaves : (with_claim codec r claim db1).1 ≡ end =
        ap (λ (x : Result CollectionError PageReport × Db). x.1) told in
      (
        last,
        sym leaves
            ∙ (same
                ∙ sym (
                    ap
                      (λ (m : Result CollectionError (Option Claim × Db)).
                        run_all codec (between r claim ++ last) (second db m))
                      given)),
        subst
            (λ (x : PageReport).
              Last r claim (lost_renewal r claim db1) (run_all codec (between r claim) db1) x last)
            reports ends,
      )
