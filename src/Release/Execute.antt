-- ===== src/Release/Execute.antt =====
-- execute of apps/api/src/release-budget.ts: a call that is reserved, made and settled through the journal.
use tech_p.Base.{
  ℕ, Bool, true, false, not, ◌||◌, List, [], ◌∷◌, if◌then◌else◌, Text, Result, ok, err,
}
use tech_p.Release.Journal.{
  admit_call, ReleaseError, RawUsage, ReleaseUsage, CallKind, ReleaseReservation, ReleaseEvent,
  ReleaseState, usage, added, within_caps, all_safe, breaks, without, call_failed, reserve, settle,
}

-- What the journal and the provider do during one call.
pub data CallOutcome : Type 0 where
  reserve_not_written : CallOutcome
  call_threw : CallOutcome
  answered : RawUsage → Bool → CallOutcome

abbrev pub poison : ReleaseState → ReleaseState
poison s = record s { poisoned = true }

-- What the journal has after a call, whether the call returned, and the state in memory.
pub record Executed : Type 0 where
  pub result : Result ReleaseError (Unit {0})
  pub events : List ReleaseEvent
  pub state : ReleaseState

-- The settlement of an answer; `written` is whether the journal took it.
unfoldable pub settle_call :
    Result ReleaseError ReleaseUsage
    → RawUsage
    → Bool
    → ReleaseReservation
    → ReleaseUsage
    → ReleaseState
    → Executed
settle_call (err e) raw written r held s = record {
  result = err call_failed;
  events = reserve r ∷ [];
  state = poison s;
}
settle_call (ok actual) raw written r held s =
    if breaks actual held || not written
    then record { result = err call_failed; events = reserve r ∷ []; state = poison s }
    else finish (within_caps (added s.total actual) all_safe)
  where
    finish : Bool → Executed
    finish false = record {
      result = err call_failed;
      events = reserve r ∷ settle r.id raw ∷ [];
      state = poison s;
    }
    finish true = record {
      result = ok tt;
      events = reserve r ∷ settle r.id raw ∷ [];
      state = record s { total = added s.total actual; pending = without r.id s.pending };
    }

unfoldable pub run_call : CallOutcome → ReleaseReservation → ReleaseUsage → ReleaseState → Executed
unfolding settle_call usage
run_call reserve_not_written r held s = record {
  result = err call_failed;
  events = [];
  state = poison s;
}
run_call call_threw r held s = record {
  result = err call_failed;
  events = reserve r ∷ [];
  state = poison (record s { pending = (r.id, held) ∷ s.pending });
}
run_call (answered raw written) r held s =
    settle_call (usage raw) raw written r held (record s { pending = (r.id, held) ∷ s.pending })

unfoldable pub execute_admitted :
    Result ReleaseError ReleaseUsage
    → CallKind
    → Text
    → RawUsage
    → ℕ
    → CallOutcome
    → ReleaseState
    → Executed
unfolding run_call
execute_admitted (err e) kind hash raw id outcome s = record {
  result = err e;
  events = [];
  state = s;
}
execute_admitted (ok held) kind hash raw id outcome s =
    run_call outcome (record { id = id; kind = kind; request_hash = hash; reserved = raw }) held s

-- execute; `id` is what `randomUUID` drew.
unfoldable pub execute :
    ReleaseUsage → Bool → CallKind → Text → RawUsage → ℕ → CallOutcome → ReleaseState → Executed
unfolding admit_call execute_admitted
execute caps reconciled kind hash raw id outcome s =
    execute_admitted (admit_call caps reconciled kind hash raw s) kind hash raw id outcome s
