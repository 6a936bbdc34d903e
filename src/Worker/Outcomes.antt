-- ===== src/Worker/Outcomes.antt =====
-- What executePartitionPage of apps/worker/src/ingestion.ts is given, and what it reports.
use tech_p.Base.{
  ℕ, ◌+◌, Bool, true, false, not, ◌&&◌, Option, none, some, List, [], ◌∷◌, map, any, length,
  if◌then◌else◌, leb, Date, at, Num, Text, codes, includes, Result, ok, err,
}
use tech_p.Collection.Model.{CollectionError, PageDisposition, deferred, PageResult}
use tech_p.Collection.Store.{Db}
use tech_p.Collection.Traces.{Call}

-- What becomes of the collector: there is none for the source, or it returns a page, or it throws; then it is
-- told whether an Error is thrown, and its message, or the text of what else it is.
pub data Collected : Type 0 where
  no_collector : Collected
  returned : PageResult → Collected
  threw : Bool → Text → Collected

-- While it works: transactions of others, and the timer's renewals of the claim. The timer is stopped at once
-- where there is no collector, so that the renewals there are none.
pub data Meanwhile : Type 0 where
  others : Call → Meanwhile
  renews : ℕ → Meanwhile

-- A call, with what the clock reads where it is read. `missing_message` says that there is no collector, and
-- `violation_message` is what the database says of a constraint that an insert violates.
pub record PageRun : Type 0 where
  pub partition_id : ℕ
  pub page_sequence : ℕ
  pub lease_ms : Num
  pub start_time : ℕ
  pub meanwhile : List Meanwhile
  pub collected : Collected
  pub commit_time : ℕ
  pub error_time : ℕ
  pub missing_message : Text
  pub violation_message : Text

pub data Disposition : Type 0 where
  skipped fenced_out : Disposition
  disposed : PageDisposition → Disposition

-- ExecutePartitionPageResult
pub record PageReport : Type 0 where
  pub disposition : Disposition
  pub items_persisted : ℕ
  pub next_due_at : Option Date
  pub error_summary : Option Text

abbrev pub skipped_report : Option Text → PageReport
skipped_report summary = record {
  disposition = skipped;
  items_persisted = 0;
  next_due_at = none;
  error_summary = summary;
}

abbrev pub fenced_report : PageReport
fenced_report = record {
  disposition = fenced_out;
  items_persisted = 0;
  next_due_at = none;
  error_summary = some (codes "stale_lease");
}

abbrev pub due_at : Option ℕ → Option Date
due_at none = none
due_at (some t) = some (at t)

abbrev pub deferred_report : Text → Option ℕ → PageReport
deferred_report message retry_at = record {
  disposition = disposed deferred;
  items_persisted = 0;
  next_due_at = due_at retry_at;
  error_summary = some message;
}

abbrev pub collected_report : PageResult → PageReport
collected_report result = record {
  disposition = disposed result.disposition;
  items_persisted = length result.items;
  next_due_at = result.retry_at;
  error_summary = result.reason;
}

-- The message of a CollectionStateError is its code.
abbrev pub message_of : Text → CollectionError → Text
message_of violation CollectionError.invalid_window = codes "invalid_window"
message_of violation CollectionError.invalid_cursor = codes "invalid_cursor"
message_of violation CollectionError.stale_lease = codes "stale_lease"
message_of violation CollectionError.policy_blocked = codes "policy_blocked"
message_of violation CollectionError.invalid_page = codes "invalid_page"
message_of violation CollectionError.not_found = codes "not_found"
message_of violation CollectionError.invalid_state = codes "invalid_state"
message_of violation CollectionError.unique_violation = violation
message_of violation CollectionError.check_violation = violation
message_of violation CollectionError.invalid_replay = codes "Replay requires 1–500 acquired items"

-- The pattern with its flag `i`: its letters are ASCII, and no other character folds to one of these.
abbrev fold_case : ℕ → ℕ
fold_case c = if leb 65 c && leb c 90 then c + 32 else c

unfoldable pub is_policy_violation : Text → Bool
unfolding includes
is_policy_violation message =
    any (λ p. includes (map fold_case message) p)
      (codes "content policy"
        ∷ codes "policy violation"
        ∷ codes "ssrf"
        ∷ codes "forbidden host"
        ∷ codes "unauthorized host"
        ∷ codes "pii violation"
        ∷ [])

-- `retryAt`: five seconds later if the error is transient. Only the message of an Error can make it permanent.
unfoldable pub retry_after : Bool → Bool → Text → ℕ → Option ℕ
retry_after is_error renewal_failed message now =
    if not (is_error && is_policy_violation message) && not renewal_failed
    then some (now + 5000)
    else none

-- A renewal that throws has failed, as one that finds no target has.
abbrev pub after_renewal : Db → Result CollectionError (Bool × Db) → Bool × Db
after_renewal db (err e) = (true, db)
after_renewal db (ok (renewed, db')) = (not renewed, db')

-- `error instanceof CollectionStateError && error.code === …`
abbrev pub is_stale : CollectionError → Bool
is_stale CollectionError.stale_lease = true
is_stale _ = false

abbrev pub is_blocked : CollectionError → Bool
is_blocked CollectionError.policy_blocked = true
is_blocked _ = false

-- failPage: an error but stale_lease is dropped.
abbrev pub after_fail : Text → Option ℕ → Db → Result CollectionError Db → PageReport × Db
after_fail message retry_at db (ok db') = (deferred_report message retry_at, db')
after_fail message retry_at db (err e) =
    (if is_stale e then fenced_report else deferred_report message retry_at, db)
