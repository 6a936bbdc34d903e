-- ===== src/Worker/Tests.antt =====
-- Runs of executePartitionPage of apps/worker/src/ingestion.ts on a small database, and each of its properties
-- at an input that it covers.
use tech_p.Base.{
  ◌+◌, ◌≤◌, ◌≡◌, ◌≢◌, refl, true, none, some, List, [], ◌∷◌, ◌++◌, map, find, any, all, keep_if,
  update_where, length, codes, eq_text, includes, starts_with, nat, ok,
}
use tech_p.Collection.Model.{CollectionMode, Partition, Claim, Delivery}
use tech_p.Collection.Policy.{item_rights, assert_collectable, check_url}
use tech_p.Collection.Page.{
  decode_page_cursor, natural_key, validate_window, valid_window, validate_page_result,
}
use tech_p.Collection.Store.{
  Db, find_partition, read_target, fence_page, holds_lease, collection_delivery,
}
use tech_p.Collection.Store.Renewing.{renew_page, fail_page}
use tech_p.Collection.Store.Leasing.{
  plan_partition, claim_page, may_claim, insert_partition, leased,
}
use tech_p.Collection.Store.Commit.{commit_page, insert_raw, insert_membership}
use tech_p.Collection.Traces
use tech_p.Collection.Traces.{Call, run, run_all}
use tech_p.Collection.Sample.{codec, fresh, planned, page, target}
use tech_p.Worker.Outcomes.{
  Collected, Meanwhile, PageRun, collected_report, deferred_report, is_policy_violation,
}
use tech_p.Worker.Page.{execute_page, notice_of, no_notice, permanent_notice}
use tech_p.Worker.Refining.{made, lost_renewal, Last, execute_page_refines}
use tech_p.Worker.Reports.{collected_page_is_done}
use tech_p.Collection.Store.Outbox.{claim_deliveries, mark_sent}
use tech_p.Collection.Lifecycle.{Follows-refl}
use tech_p.Collection.Refines.{Moves}
use tech_p.Worker.Dispatch.{Dispatcher, Handled, CycleResult, Counters, dispatch_batch, tick}
use tech_p.Worker.Accounting.{
  Dispatched, processed_among, unhandled_among, thrown_among, batch_is_accounted,
}
use tech_p.Worker.Ticking.{Rested, tick_comes_to_rest}
use tech_p.Worker.Failures.{FailedRow, failure_is_recorded}

-- The lease is renewed once before the page comes.
abbrev page_run : PageRun
page_run = record {
  partition_id = 10;
  page_sequence = 0;
  lease_ms = nat 1000;
  start_time = 5;
  meanwhile = Meanwhile.renews 10 ∷ [];
  collected = Collected.returned page;
  commit_time = 20;
  error_time = 30;
  missing_message = codes "No collector registered";
  violation_message = codes "duplicate key";
}

abbrev collected : Db
collected = (execute_page codec page_run planned).1

collects : execute_page codec page_run planned ≡ (ok (collected_report page), collected)
unfolding execute_page run plan_partition natural_key validate_window valid_window read_target
    insert_partition collection_delivery find any all eq_text assert_collectable claim_page
    may_claim decode_page_cursor update_where fence_page commit_page validate_page_result
    holds_lease check_url item_rights insert_raw insert_membership renew_page
collects = refl

-- What a claim of the page would be.
abbrev second_claim : Claim
second_claim = record { partition = leased 15 3500 fresh; target = target; run_id = 15 }

collected_page_is_done_example :
    claim_page codec 10 0 2500 (nat 1000) collected ≢ ok (some second_claim, collected)
unfolding run_all
collected_page_is_done_example =
    collected_page_is_done codec page_run planned collected (collected_report page) [] 2500
      (nat 1000) second_claim collected collects refl

abbrev failing_run : PageRun
failing_run = record page_run { collected = Collected.threw true (codes "HTTP 503") }

abbrev failed_tables : Db
failed_tables = (execute_page codec failing_run planned).1

fails :
    execute_page codec failing_run planned
    ≡ (ok (deferred_report (codes "HTTP 503") (some 5030)), failed_tables)
unfolding execute_page run plan_partition natural_key validate_window valid_window read_target
    insert_partition collection_delivery find any all eq_text assert_collectable claim_page
    may_claim decode_page_cursor update_where fence_page holds_lease renew_page fail_page
    is_policy_violation
fails = refl

failure_is_recorded_example :
    (row : Partition) × (find_partition 10 failed_tables.partitions ≡ some row)
    × FailedRow failing_run true
        (codes "HTTP 503")
        (deferred_report (codes "HTTP 503") (some 5030))
        row
failure_is_recorded_example =
    failure_is_recorded codec failing_run planned failed_tables
      (deferred_report (codes "HTTP 503") (some 5030)) true (codes "HTTP 503") refl fails refl

-- A failure that is retried is not called permanent; one that is not is.
notices :
    (notice_of (deferred_report (codes "HTTP 503") (some 5030)) ≡ no_notice)
    × (notice_of (deferred_report (codes "SSRF") none) ≡ permanent_notice (codes "SSRF"))
unfolding notice_of
notices = (refl, refl)

forbids : is_policy_violation (codes "Forbidden host: SSRF") ≡ true
unfolding is_policy_violation includes starts_with any
forbids = refl

abbrev page_claim : Claim
page_claim = record { partition = leased 12 1005 fresh; target = target; run_id = 12 }

abbrev claimed : Db
claimed = run codec (Traces.claim 10 0 5 (nat 1000)) planned

claims_page : claim_page codec 10 0 5 (nat 1000) planned ≡ ok (some page_claim, claimed)
unfolding run plan_partition natural_key validate_window valid_window read_target insert_partition
    collection_delivery find any all eq_text assert_collectable claim_page may_claim
    decode_page_cursor update_where
claims_page = refl

execute_page_refines_example :
    (last : List Call) × (collected
      ≡ run_all codec
          (Traces.claim 10 0 5 (nat 1000)
            ∷ (map (made page_claim (nat 1000)) page_run.meanwhile ++ last))
          planned)
    × Last codec page_run page_claim
        (lost_renewal codec page_run page_claim claimed)
        (run_all codec (map (made page_claim (nat 1000)) page_run.meanwhile) claimed)
        (collected_report page)
        last
execute_page_refines_example =
    execute_page_refines codec page_run planned claimed collected page_claim (collected_report page)
      claims_page collects

abbrev dispatcher : Dispatcher
dispatcher = record {
  enqueue = none;
  normalization = some (λ d db. (none, db));
  embedding = none;
  page_run = λ d. page_run;
  mark_time = λ d. 5;
  lease_ms = nat 1000;
  batch_limit = nat 10;
  violation_message = codes "duplicate key";
}

abbrev cycle_end : Db
cycle_end = (dispatch_batch codec dispatcher (some CollectionMode.backfill) 4 planned).1

abbrev cycle : CycleResult
cycle = record { claimed_count = 1; processed_count = 1; failures = [] }

-- The page of the partition is delivered, collected and committed.
dispatches :
    dispatch_batch codec dispatcher (some CollectionMode.backfill) 4 planned ≡ (ok cycle, cycle_end)
unfolding dispatch_batch execute_page run plan_partition natural_key validate_window valid_window
    read_target insert_partition collection_delivery find any all eq_text assert_collectable
    claim_page may_claim decode_page_cursor update_where fence_page commit_page validate_page_result
    holds_lease check_url item_rights insert_raw insert_membership renew_page claim_deliveries
    mark_sent keep_if
dispatches = refl

batch_is_accounted_example :
    (ds : List Delivery) × (mid : Db) × (fs : List (Delivery × Handled)) × (claim_deliveries 4
        (nat 10)
        (nat 1000)
        (some CollectionMode.backfill)
        planned
      ≡ ok (ds, mid))
    × (length ds ≤ 100)
    × (map (λ (f : Delivery × Handled). f.0) fs ≡ ds)
    × Dispatched codec dispatcher (some CollectionMode.backfill) fs mid cycle_end
    × (1 ≡ length ds)
    × (1 ≡ processed_among fs)
    × ([] ≡ thrown_among fs)
    × (1 + 0 + unhandled_among fs ≡ 1)
batch_is_accounted_example =
    batch_is_accounted codec dispatcher (some CollectionMode.backfill) 4 planned cycle_end cycle
      dispatches

abbrev at_rest : Counters
at_rest = record { active_incremental = 0; active_backfill = 0; total_dispatched = 7 }

tick_comes_to_rest_example :
    Moves planned (tick codec dispatcher 3 4 40 at_rest planned).1.1
    × Rested at_rest (tick codec dispatcher 3 4 40 at_rest planned)
tick_comes_to_rest_example =
    tick_comes_to_rest codec dispatcher 3 4 40 at_rest planned tt
      (λ d db. Follows-refl db.partitions) tt
