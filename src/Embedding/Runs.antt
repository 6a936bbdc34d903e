-- ===== src/Embedding/Runs.antt =====
-- Runs of the transactions of packages/database/src/embedding-work.ts in any order, from any number of
-- workers, between any transactions on the budget ledger.
use tech_p.Base.{
  ℕ, ◌≡◌, ◌≢◌, refl, sym, ◌∙◌, ap, Bool, Option, some, List, [], ◌∷◌, arith, Num, Result, ok, err,
}
use tech_p.Budget.Ledger.{BudgetError, Ledger}
use tech_p.Embedding.Items.{
  Hashing, WorkKey, Work, Component, EmbedDb, Claimed, find_work, calling_with,
}
use tech_p.Embedding.Work.{
  claim_or_read, begin_call, complete_work, mark_outcome_unknown, mark_failed,
}
use tech_p.Embedding.Marks.{
  mark_outcome_unknown-Progress, mark_failed-Progress, mark_outcome_unknown-IsSound,
  mark_failed-IsSound,
}
use tech_p.Embedding.Advancing.{
  begun, claim_or_read-Advances, begin_call-eq-ok, begin_call-Advances, complete_work-Advances,
}
use tech_p.Embedding.Rows.{IsSound}
use tech_p.Embedding.Once
use tech_p.Embedding.Once.{
  stage, Onward, Onward-refl, Advances, Advances-refl, Advances-trans, set_work-Advances,
  IsSound-of_works, claim_state-Advances, calling-stage, claimed-stage, found_work,
}

-- What any worker may do next; `with_ledger` stands for a transaction on the ledger alone.
pub data WorkCall : Type 0 where
  claim : WorkKey → ℕ → Num → Bool → WorkCall
  begin : ℕ → ℕ → ℕ → ℕ → Bool → WorkCall
  complete : ℕ → ℕ → List Component → ℕ → Bool → WorkCall
  unknown : ℕ → ℕ → ℕ → WorkCall
  fail : ℕ → ℕ → WorkCall
  with_ledger : Ledger → WorkCall

abbrev pub kept_or : EmbedDb → Result BudgetError EmbedDb → EmbedDb
kept_or db (ok db') = db'
kept_or db (err e) = db

abbrev pub claimed_or : EmbedDb → Result BudgetError (Option Claimed × EmbedDb) → EmbedDb
claimed_or db (ok (got, db')) = db'
claimed_or db (err e) = db

kept_or-Advances :
    (db : EmbedDb) (m : Result BudgetError EmbedDb)
    → IsSound db
    → ((db' : EmbedDb) → m ≡ ok db' → Advances db db')
    → Advances db (kept_or db m)
kept_or-Advances db (ok db') s h = h db' refl
kept_or-Advances db (err e) s h = Advances-refl db s

claimed_or-Advances :
    (db : EmbedDb) (m : Result BudgetError (Option Claimed × EmbedDb))
    → IsSound db
    → ((got : Option Claimed) (db' : EmbedDb) → m ≡ ok (got, db') → Advances db db')
    → Advances db (claimed_or db m)
claimed_or-Advances db (ok (got, db')) s h = h got db' refl
claimed_or-Advances db (err e) s h = Advances-refl db s

module _ (hashing : Hashing) where
  unfoldable pub work_call : WorkCall → EmbedDb → EmbedDb
  work_call (claim key now lease rights) db =
      claimed_or db (claim_or_read hashing key now lease rights db)
  work_call (begin id epoch reservation now rights) db =
      kept_or db (begin_call hashing id epoch reservation now rights db)
  work_call (complete id epoch vector now rights) db =
      kept_or db (complete_work hashing id epoch vector now rights db)
  work_call (unknown id epoch now) db = mark_outcome_unknown id epoch now db
  work_call (fail id epoch) db = mark_failed id epoch db
  work_call (with_ledger ledger) db = record db { ledger = ledger }

  unfoldable pub work_calls : List WorkCall → EmbedDb → EmbedDb
  unfolding work_call
  work_calls [] db = db
  work_calls (c ∷ cs) db = work_calls cs (work_call c db)

  work_call-Advances : (c : WorkCall) (db : EmbedDb) → IsSound db → Advances db (work_call c db)
  unfolding work_call
  work_call-Advances (claim key now lease rights) db s =
      claimed_or-Advances db _ s
        (λ got db' e. claim_or_read-Advances hashing key now lease rights db got db' s e)
  work_call-Advances (begin id epoch reservation now rights) db s =
      kept_or-Advances db _ s
        (λ db' e. begin_call-Advances hashing id epoch reservation now rights db db' s e)
  work_call-Advances (complete id epoch vector now rights) db s =
      kept_or-Advances db _ s
        (λ db' e. complete_work-Advances hashing id epoch vector now rights db db' s e)
  work_call-Advances (unknown id epoch now) db s = record {
    sound = mark_outcome_unknown-IsSound id epoch now db s;
    progress = mark_outcome_unknown-Progress id epoch now db;
  }
  work_call-Advances (fail id epoch) db s = record {
    sound = mark_failed-IsSound id epoch db s;
    progress = mark_failed-Progress id epoch db;
  }
  work_call-Advances (with_ledger ledger) db s = record {
    sound = IsSound-of_works db (record db { ledger = ledger }) refl (omega arith) s;
    progress = Once.Progress-of_same db (record db { ledger = ledger }) refl;
  }

  pub work_calls-Advances :
      (cs : List WorkCall) (db : EmbedDb) → IsSound db → Advances db (work_calls cs db)
  unfolding work_calls
  work_calls-Advances [] db s = Advances-refl db s
  work_calls-Advances (c ∷ cs) db s =
      let first = work_call-Advances c db s in
      Advances-trans db (work_call c db) (work_calls cs (work_call c db)) first
        (work_calls-Advances cs (work_call c db) first.sound)

  -- The provider is called at most once for a work item: in a table whose ids and work keys are keys,
  -- once a call has begun, and whatever calls follow, no call begins for that item again, under any
  -- epoch and any reservation.
  pub called_at_most_once :
      (id epoch reservation now : ℕ) (rights : Bool) (db db1 : EmbedDb) (cs : List WorkCall)
      (epoch' reservation' now' : ℕ) (rights' : Bool) (db2 : EmbedDb)
      → IsSound db
      → begin_call hashing id epoch reservation now rights db ≡ ok db1
      → begin_call hashing id epoch' reservation' now' rights' (work_calls cs db1) ≢ ok db2
  called_at_most_once id epoch reservation now rights db db1 cs epoch' reservation' now' rights' db2
        s e f =
      let (work, found, claimed, same) =
        begin_call-eq-ok hashing id epoch reservation now rights db db1 e in
      let first = begin_call-Advances hashing id epoch reservation now rights db db1 s e in
      let at_one = begun id reservation db db1 work found same in
      let (later, there, onward) =
        (work_calls-Advances cs db1 first.sound).progress id (calling_with reservation work)
          at_one in
      let (again, found', claimed', _) =
        begin_call-eq-ok hashing id epoch' reservation' now' rights' (work_calls cs db1) db2 f in
      let this : later ≡ again = found_work id (work_calls cs db1).works later again there found' in
      let back = claimed-stage again.state claimed' in
      let stages = onward.stages in
      let level = ap (λ (w : Work). stage w.state) this in ground arith

  -- A work item that is completed, failed or of unknown outcome never changes again, whatever calls
  -- follow, in a table whose ids and work keys are keys.
  pub outcome_is_final :
      (cs : List WorkCall) (db : EmbedDb) (id : ℕ) (work : Work)
      → IsSound db
      → find_work id db.works ≡ some work
      → stage work.state ≡ 2
      → find_work id (work_calls cs db).works ≡ some work
  outcome_is_final cs db id work s found done =
      let (later, there, onward) = (work_calls-Advances cs db s).progress id work found in
      there ∙ ap some (sym (onward.final done))
